-- ===== src/DiffCore/Scrub.antt =====
-- `scrub` and `_scrub_one` (jobs/diffcore.py): the removal of dotted paths from a nested dict.
use nautobot_testsuite.Base.{
  ◌≡◌, refl, Bool, true, false, ◌&&◌, ◌||◌, List, [], ◌∷◌, arith, if◌then◌else◌, Text, codes,
  text_eq, split_on, Bool-cases, inl, inr,
}
use nautobot_testsuite.DiffCore.Values.{Value, null, bool, num, text, arr, obj, Fields, end, field}

-- head == "*" or head == key
unfoldable pub is_selected : Text → Text → Bool
is_selected head key = text_eq head (codes "*") || text_eq head key

-- node.pop(key, None) for the selected keys
unfoldable pub pop_selected : {N : Type 0} → Text → Fields N → Fields N
pop_selected head end = end
pop_selected head (field k v fs) =
    let rest = pop_selected head fs in if is_selected head k then rest else field k v rest

-- The values under the selected keys, changed in place.
unfoldable pub change_selected : {N : Type 0} → Text → (Value N → Value N) → Fields N → Fields N
change_selected head f end = end
change_selected head f (field k v fs) =
    field k (if is_selected head k then f v else v) (change_selected head f fs)

-- _scrub_one
unfoldable pub scrub_one : {N : Type 0} → List Text → Value N → Value N
scrub_one [] v = v
scrub_one (head ∷ []) v = elim v [ obj fs ↦ obj (pop_selected head fs) | other ↦ other ]
scrub_one (head ∷ next ∷ parts) v = elim v [
  | obj fs ↦ obj (change_selected head (scrub_one (next ∷ parts)) fs)
  | other ↦ other
]

-- scrub
unfoldable pub scrub : {N : Type 0} → Value N → List Text → Value N
scrub value [] = value
scrub value (path ∷ paths) = scrub (scrub_one (split_on b'.' path) value) paths

-- Whether some value stands under a selected key and passes a test.
unfoldable pub any_selected : {N : Type 0} → Text → (Value N → Bool) → Fields N → Bool
any_selected head p end = false
any_selected head p (field k v fs) = is_selected head k && p v || any_selected head p fs

-- Whether a path, with its wildcards, leads to a value.
unfoldable pub leads_to_value : {N : Type 0} → List Text → Value N → Bool
leads_to_value [] v = false
leads_to_value (head ∷ []) v = elim v [ obj fs ↦ any_selected head (λ w. true) fs | _ ↦ false ]
leads_to_value (head ∷ next ∷ parts) v = elim v [
  | obj fs ↦ any_selected head (leads_to_value (next ∷ parts)) fs
  | _ ↦ false
]

any_selected-pop :
    {N : Type 0} (head : Text) (p : Value N → Bool) (fs : Fields N)
    → any_selected head p (pop_selected head fs) ≡ false
unfolding any_selected pop_selected
any_selected-pop head p end = refl
any_selected-pop head p (field k v fs) = ground (arith, any_selected-pop head p fs)

any_selected-change :
    {N : Type 0} (head : Text) (f : Value N → Value N) (p : Value N → Bool)
    → ((v : Value N) → p (f v) ≡ false)
    → (fs : Fields N) → any_selected head p (change_selected head f fs) ≡ false
unfolding any_selected change_selected
any_selected-change head f p h end = refl
any_selected-change head f p h (field k v fs) = elim (Bool-cases (is_selected head k)) [
  | inl hit ↦ rw hit (rw (h v) (any_selected-change head f p h fs))
  | inr miss ↦ rw miss (any_selected-change head f p h fs)
]

-- After a path is scrubbed it leads to no value, whatever it selects by wildcards and whatever
-- values that are no dicts stand on the way.
pub leads_to_value-scrub_one :
    {N : Type 0} (parts : List Text) (v : Value N)
    → leads_to_value parts (scrub_one parts v) ≡ false
unfolding leads_to_value scrub_one
leads_to_value-scrub_one [] v = refl
leads_to_value-scrub_one (head ∷ []) (obj fs) = any_selected-pop head (λ w. true) fs
leads_to_value-scrub_one (head ∷ []) null = refl
leads_to_value-scrub_one (head ∷ []) (bool b) = refl
leads_to_value-scrub_one (head ∷ []) (num x) = refl
leads_to_value-scrub_one (head ∷ []) (text s) = refl
leads_to_value-scrub_one (head ∷ []) (arr vs) = refl
leads_to_value-scrub_one (head ∷ next ∷ parts) (obj fs) =
    any_selected-change head (scrub_one (next ∷ parts)) (leads_to_value (next ∷ parts))
      (λ w. leads_to_value-scrub_one (next ∷ parts) w) fs
leads_to_value-scrub_one (head ∷ next ∷ parts) null = refl
leads_to_value-scrub_one (head ∷ next ∷ parts) (bool b) = refl
leads_to_value-scrub_one (head ∷ next ∷ parts) (num x) = refl
leads_to_value-scrub_one (head ∷ next ∷ parts) (text s) = refl
leads_to_value-scrub_one (head ∷ next ∷ parts) (arr vs) = refl
