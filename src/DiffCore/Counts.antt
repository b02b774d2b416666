-- ===== src/DiffCore/Counts.antt =====
-- The verdicts of the capability and the tolerance modes, over all keys.
use nautobot_testsuite.Base.{
  ◌≡◌, refl, ◌∙◌, ap, ◌↔◌, Bool, true, false, ◌&&◌, ◌||◌, Option, none, some, List, [], ◌∷◌, map,
  arith, if◌then◌else◌, Text, Dict, lookup, keys, contains, is_empty, is_some, Bool-cases,
  Option-cases, inl, inr, text_eq, text_eq_refl, eq_of_text_eq, contains-sorted_set, contains-keys,
  contains-select,
}
use nautobot_testsuite.Numeric.{Numeric}
use nautobot_testsuite.DiffCore.Values.{Value}
use nautobot_testsuite.DiffCore.Config.{Compare}
use nautobot_testsuite.DiffCore.Report.{pass}
use nautobot_testsuite.DiffCore.Band.{within_band}
use nautobot_testsuite.DiffCore.Equality.{all_keys, as_number, get_value}
use nautobot_testsuite.DiffCore.Verdicts.{contains-all_keys}
use nautobot_testsuite.DiffCore.Numbers.{
  Gate, is_miss, miss_verdict, floor_of, min_post_of, diff_capability, evaluate, diff_tolerance,
  tolerance_fields, band_for, gate_at,
}

-- No miss among the outcomes of some keys.
miss_verdict_iff :
    {A : Type 0} (ok : A → Option Bool) (f : Text → A) (xs : List Text)
    → (miss_verdict (map ok (map f xs)) ≡ pass)
      ↔ ((k : Text) → contains k xs ≡ true → is_miss (ok (f k)) ≡ false)
unfolding miss_verdict contains
miss_verdict_iff ok f [] = (λ h k c. cc, λ h. refl)
miss_verdict_iff ok f (x ∷ xs) = (
  λ h k c. elim (Bool-cases (text_eq x k)) [
    | inl same ↦ rw (← eq_of_text_eq x k same) (ground arith)
    | inr other ↦ (miss_verdict_iff ok f xs).0 (ground arith) k (ground (arith, other))
  ],
  λ h. ground (
    arith,
    h x (ground (arith, text_eq_refl x)),
    (miss_verdict_iff ok f xs).1 (λ k c. h k (ground arith)),
  ),
)

module _ (n : Numeric) where
  open n use {Number, num_le}

  -- A bucket that carried at least the floor before carries at least the minimum after.
  abbrev pub StillCapable :
      Compare Number → Option (Option Number) → Option (Option Number) → Type 0
  StillCapable c (some (some old)) after =
      num_le (floor_of n c) old ≡ true
      → (new : Number) × (after ≡ some (some new)) × (num_le (min_post_of n c) new ≡ true)
  StillCapable c _ after = Unit {0}

  gate_at_iff :
      (c : Compare Number) (k : Text) (before after : Option (Option Number))
      → (is_miss (gate_at n c k before after).ok ≡ false) ↔ StillCapable c before after
  unfolding gate_at is_miss
  gate_at_iff c k none after = (λ _. tt, λ _. refl)
  gate_at_iff c k (some none) after = (λ _. tt, λ _. refl)
  gate_at_iff c k (some (some old)) none = (
    λ h reached. ground arith,
    λ h. elim (Bool-cases (num_le (floor_of n c) old)) [
      | inl r ↦ absurd (cc ((h r).1))
      | inr q ↦ ground arith
    ],
  )
  gate_at_iff c k (some (some old)) (some none) = (
    λ h reached. ground arith,
    λ h. elim (Bool-cases (num_le (floor_of n c) old)) [
      | inl r ↦ absurd (cc ((h r).1))
      | inr q ↦ ground arith
    ],
  )
  gate_at_iff c k (some (some old)) (some (some new)) = (
    λ h reached. (new, refl, ground arith),
    λ h. elim (Bool-cases (num_le (floor_of n c) old)) [
      | inl r ↦ let (m, e, least) = h r in ground arith
      | inr q ↦ ground arith
    ],
  )

  abbrev gates : Dict (Option Number) → Dict (Option Number) → Compare Number → Text → Gate Number
  gates pre post c k = gate_at n c k (lookup k pre) (lookup k post)

  -- The verdict of the capability mode is "pass" exactly when every bucket whose count before was
  -- read and reached the floor has, after, a count that was read and reaches the minimum: a bucket
  -- that is absent or unreadable after fails, one that was unreadable before does not.
  pub diff_capability-pass_iff :
      (pre post : Dict (Option Number)) (c : Compare Number)
      → ((diff_capability n pre post c).0 ≡ pass)
        ↔ ((k : Text) → StillCapable c (lookup k pre) (lookup k post))
  unfolding diff_capability
  diff_capability-pass_iff pre post c = (
    λ h k. elim (Option-cases (lookup k pre)) [
      | inl p ↦ rw p tt
      | inr (a, p) ↦ (gate_at_iff c k (lookup k pre) (lookup k post)).0 (
          (miss_verdict_iff (λ e. e.ok) (gates pre post c) (all_keys pre post)).0 h k
            (contains-all_keys k pre post ∙ rw p refl))
    ],
    λ h.
        (miss_verdict_iff (λ e. e.ok) (gates pre post c) (all_keys pre post)).1
          (λ k _. (gate_at_iff c k (lookup k pre) (lookup k post)).1 (h k)),
  )

  -- Without configured fields every field is compared, else the configured ones.
  abbrev pub compared : Compare Number → Text → Bool
  compared c fld = is_empty c.fields || is_some (lookup fld c.fields)

  -- A compared field that is a number on both sides is within its band.
  abbrev pub KeepsBand : Compare Number → Text → Value Number → Value Number → Type 0
  KeepsBand c fld old new =
      (x y : Number)
      → as_number n old ≡ some x
      → as_number n new ≡ some y
      → within_band n x y (band_for c fld) ≡ true

  evaluate_iff :
      (c : Compare Number) (pre post : Dict (Value Number)) (fld : Text)
      → (is_miss (evaluate n pre post c fld).within ≡ false)
        ↔ KeepsBand c fld (get_value fld pre) (get_value fld post)
  unfolding evaluate is_miss
  evaluate_iff c pre post fld = (
    λ h x y p q. ground arith,
    λ h. elim (Option-cases (as_number n (get_value fld pre))) [
      | inl p ↦ ground arith
      | inr (x, p) ↦ elim (Option-cases (as_number n (get_value fld post))) [
        | inl q ↦ ground arith
        | inr (y, q) ↦ ground (arith, h x y p q)
      ]
    ],
  )

  numeric_field : Dict (Value Number) → Dict (Value Number) → Text → Bool
  numeric_field pre post fld =
      is_some (as_number n (get_value fld pre)) || is_some (as_number n (get_value fld post))

  contains-tolerance_fields :
      (c : Compare Number) (pre post : Dict (Value Number)) (fld : Text)
      → contains fld (tolerance_fields n pre post c) ≡ (
          if is_empty c.fields
          then (is_some (lookup fld pre) || is_some (lookup fld post)) && numeric_field pre post fld
          else is_some (lookup fld c.fields))
  unfolding tolerance_fields numeric_field
  contains-tolerance_fields c pre post fld = elim (Bool-cases (is_empty c.fields)) [
    | inl open_ended ↦ rw open_ended (
        contains-select (numeric_field pre post) fld (all_keys pre post)
        ∙ ap (λ b. b && numeric_field pre post fld) (contains-all_keys fld pre post))
    | inr configured ↦
        rw configured (contains-sorted_set fld (keys c.fields) ∙ contains-keys fld c.fields)
  ]

  present_of_number :
      (view : Dict (Value Number)) (fld : Text) (x : Number)
      → as_number n (get_value fld view) ≡ some x
      → is_some (lookup fld view) ≡ true
  unfolding get_value as_number
  present_of_number view fld x e = ground arith

  -- The verdict of the tolerance mode is "pass" exactly when every compared field that is a number
  -- on both sides is within its band; a field that is not a number on both sides is no miss.
  pub diff_tolerance-pass_iff :
      (pre post : Dict (Value Number)) (c : Compare Number)
      → ((diff_tolerance n pre post c).0 ≡ pass) ↔ (
          (fld : Text)
          → compared c fld ≡ true
          → KeepsBand c fld (get_value fld pre) (get_value fld post))
  unfolding diff_tolerance
  diff_tolerance-pass_iff pre post c = (
    λ h fld chosen x y p q.
        (evaluate_iff c pre post fld).0
          ((miss_verdict_iff (λ e. e.within) (evaluate n pre post c)
              (tolerance_fields n pre post c)).0
            h fld
            (contains-tolerance_fields c pre post fld
              ∙ unfold numeric_field in
                ground (arith, present_of_number pre fld x p, present_of_number post fld y q)))
          x y p q,
    λ h.
        (miss_verdict_iff (λ e. e.within) (evaluate n pre post c) (tolerance_fields n pre post c)).1
          (λ fld there. (evaluate_iff c pre post fld).1 (
            h fld
              (unfold numeric_field in ground (arith, contains-tolerance_fields c pre post fld)))),
  )
