-- ===== src/Base/Dicts.antt =====
-- Python's `dict` with string keys, as the list of its items in the order of insertion.
use mathlib.Core.Path.{◌≡◌, refl}
use mathlib.Core.Option.{Option, none, some}
use mathlib.Core.List.{List, [], ◌∷◌}
use native.Mathlib.Omega.{arith}
use nautobot_testsuite.Base.Tests.{if◌then◌else◌, is_some}
use nautobot_testsuite.Base.Strings.{Text, text_eq, text_eq_iff}
use nautobot_testsuite.Base.Keys.{contains}

abbrev pub Dict {ℓ} : Type ℓ → Type ℓ
Dict A = List (Text × A)

module _ {ℓ} {A : Type ℓ} where
  -- d.get(k)
  unfoldable pub lookup : Text → Dict A → Option A
  lookup k [] = none
  lookup k ((j, v) ∷ d) = if text_eq j k then some v else lookup k d

  -- list(d)
  unfoldable pub keys : Dict A → List Text
  keys [] = []
  keys ((j, v) ∷ d) = j ∷ keys d

  -- d[k] = v
  unfoldable pub put : Text → A → Dict A → Dict A
  put k v [] = (k, v) ∷ []
  put k v ((j, w) ∷ d) = let rest = put k v d in if text_eq j k then (j, v) ∷ d else (j, w) ∷ rest

  -- d.pop(k, None)
  unfoldable pub pop : Text → Dict A → Dict A
  pop k [] = []
  pop k ((j, w) ∷ d) = let rest = pop k d in if text_eq j k then rest else (j, w) ∷ rest

  pub contains-keys : (k : Text) (d : Dict A) → contains k (keys d) ≡ is_some (lookup k d)
  unfolding contains keys lookup
  contains-keys k [] = refl
  contains-keys k ((j, v) ∷ d) = ground (arith, contains-keys k d)

  pub lookup-put :
      (k j : Text) (v : A) (d : Dict A)
      → lookup j (put k v d) ≡ (if text_eq k j then some v else lookup j d)
  unfolding lookup put
  lookup-put k j v [] = refl
  lookup-put k j v ((i, w) ∷ d) =
      ground (arith, text_eq_iff k j, text_eq_iff i k, text_eq_iff i j, lookup-put k j v d)

  pub lookup-pop :
      (k j : Text) (d : Dict A) → lookup j (pop k d) ≡ (if text_eq k j then none else lookup j d)
  unfolding lookup pop
  lookup-pop k j [] = ground arith
  lookup-pop k j ((i, w) ∷ d) =
      ground (arith, text_eq_iff k j, text_eq_iff i k, text_eq_iff i j, lookup-pop k j d)
