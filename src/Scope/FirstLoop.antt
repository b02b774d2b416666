-- ===== src/Scope/FirstLoop.antt =====
-- What the loop over the devices leaves (jobs/scope.py, `resolve`).
use nautobot_testsuite.Base.{
  ◌≡◌, refl, sym, ap, ◌∙◌, true, false, Option, none, some, [], ◌∷◌, Text, text_eq, eq_of_text_eq,
  Dict, lookup, keys, contains, contains-keys, is_some, AreDistinct, Bool-cases, Option-cases, inl,
  inr,
}
use nautobot_testsuite.Scope.Rows.{Row, Inventory}
use nautobot_testsuite.Scope.Dispositions.{
  Disposition, Dependency, Outcome, decided, depends, classify, decided_of, dependencies_of,
  is_captured,
}

pub lookup_absent :
    {A : Type 0} (k : Text) (d : Dict A) → contains k (keys d) ≡ false → lookup k d ≡ none
lookup_absent k d h = elim (Option-cases (lookup k d)) [
  | inl e ↦ e
  | inr (a, e) ↦ absurd (let bad : false ≡ true = sym h ∙ (contains-keys k d ∙ rw e refl) in cc)
]

module _ (lower_case : Text → Text) (inventory : Inventory) where
  -- What the first loop leaves under a key, from what it makes of the key's device.
  abbrev pub decision : Outcome → Option Disposition
  decision (decided d reason) = some d
  decision (depends x) = none

  abbrev pub dependence : Outcome → Option Dependency
  dependence (decided d reason) = none
  dependence (depends x) = some x

  abbrev pub decision_at : Text → Option Row → Option Disposition
  decision_at k none = none
  decision_at k (some row) = decision (classify lower_case inventory k row)

  abbrev pub dependence_at : Text → Option Row → Option Dependency
  dependence_at k none = none
  dependence_at k (some row) = dependence (classify lower_case inventory k row)

  pub lookup-decided_of :
      (k : Text) (devices : Dict Row)
      → AreDistinct (keys devices)
      → lookup k (decided_of lower_case inventory devices) ≡ decision_at k (lookup k devices)
  unfolding decided_of lookup keys
  lookup-decided_of k [] distinct = refl
  lookup-decided_of k ((j, row) ∷ devices) (fresh, distinct) =
      let ih = lookup-decided_of k devices distinct in
      elim (Bool-cases (text_eq j k)) [
        | inl e ↦
            let gone : lookup k devices ≡ none =
              ap (λ i. lookup i devices) (sym (eq_of_text_eq j k e))
              ∙ lookup_absent j devices fresh in
            let nothing : lookup k (decided_of lower_case inventory devices) ≡ none =
              ih ∙ ap (decision_at k) gone in
            rw e (
              here e nothing (classify lower_case inventory j row)
              ∙ ap (λ i. decision (classify lower_case inventory i row)) (eq_of_text_eq j k e))
        | inr e ↦ rw e (there e (classify lower_case inventory j row) ∙ ih)
      ]
    where
      entries : Outcome → Dict Disposition
      entries o = elim o [
        | decided d reason ↦ (j, d) ∷ decided_of lower_case inventory devices
        | depends x ↦ decided_of lower_case inventory devices
      ]

      here :
          text_eq j k ≡ true
          → lookup k (decided_of lower_case inventory devices) ≡ none
          → (o : Outcome) → lookup k (entries o) ≡ decision o
      here e nothing (decided d reason) = rw e refl
      here e nothing (depends x) = nothing

      there :
          text_eq j k ≡ false
          → (o : Outcome)
          → lookup k (entries o) ≡ lookup k (decided_of lower_case inventory devices)
      there e (decided d reason) = rw e refl
      there e (depends x) = refl

  pub lookup-dependencies_of :
      (k : Text) (devices : Dict Row)
      → AreDistinct (keys devices)
      → lookup k (dependencies_of lower_case inventory devices) ≡ dependence_at k (lookup k devices)
  unfolding dependencies_of lookup keys
  lookup-dependencies_of k [] distinct = refl
  lookup-dependencies_of k ((j, row) ∷ devices) (fresh, distinct) =
      let ih = lookup-dependencies_of k devices distinct in
      elim (Bool-cases (text_eq j k)) [
        | inl e ↦
            let gone : lookup k devices ≡ none =
              ap (λ i. lookup i devices) (sym (eq_of_text_eq j k e))
              ∙ lookup_absent j devices fresh in
            let nothing : lookup k (dependencies_of lower_case inventory devices) ≡ none =
              ih ∙ ap (dependence_at k) gone in
            rw e (
              here e nothing (classify lower_case inventory j row)
              ∙ ap (λ i. dependence (classify lower_case inventory i row)) (eq_of_text_eq j k e))
        | inr e ↦ rw e (there e (classify lower_case inventory j row) ∙ ih)
      ]
    where
      entries : Outcome → Dict Dependency
      entries o = elim o [
        | decided d reason ↦ dependencies_of lower_case inventory devices
        | depends x ↦ (j, x) ∷ dependencies_of lower_case inventory devices
      ]

      here :
          text_eq j k ≡ true
          → lookup k (dependencies_of lower_case inventory devices) ≡ none
          → (o : Outcome) → lookup k (entries o) ≡ dependence o
      here e nothing (decided d reason) = nothing
      here e nothing (depends x) = rw e refl

      there :
          text_eq j k ≡ false
          → (o : Outcome)
          → lookup k (entries o) ≡ lookup k (dependencies_of lower_case inventory devices)
      there e (decided d reason) = refl
      there e (depends x) = rw e refl

  pub AreDistinct-dependencies_of :
      (devices : Dict Row)
      → AreDistinct (keys devices)
      → AreDistinct (keys (dependencies_of lower_case inventory devices))
  unfolding dependencies_of keys
  AreDistinct-dependencies_of [] distinct = tt
  AreDistinct-dependencies_of ((j, row) ∷ devices) (fresh, distinct) =
      by_outcome (classify lower_case inventory j row)
        (AreDistinct-dependencies_of devices distinct)
    where
      nothing : contains j (keys (dependencies_of lower_case inventory devices)) ≡ false
      nothing =
          contains-keys j (dependencies_of lower_case inventory devices)
          ∙ ap is_some (
              lookup-dependencies_of j devices distinct
              ∙ ap (dependence_at j) (lookup_absent j devices fresh))

      by_outcome :
          (o : Outcome)
          → AreDistinct (keys (dependencies_of lower_case inventory devices))
          → AreDistinct (
              keys (elim o [
                | decided d reason ↦ dependencies_of lower_case inventory devices
                | depends x ↦ (j, x) ∷ dependencies_of lower_case inventory devices
              ]))
      by_outcome (decided d reason) rest = rest
      by_outcome (depends x) rest = (nothing, rest)

  pub never_both :
      (k : Text) (found : Option Row)
      → is_some (dependence_at k found) ≡ true
      → is_captured lower_case inventory (decision_at k found) ≡ false
  unfolding is_captured
  never_both k none h = refl
  never_both k (some row) h = by_outcome (classify lower_case inventory k row) h
    where
      by_outcome :
          (o : Outcome)
          → is_some (dependence o) ≡ true
          → is_captured lower_case inventory (decision o) ≡ false
      by_outcome (decided d reason) h = cc
      by_outcome (depends x) h = refl
