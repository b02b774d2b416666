-- ===== src/DiffCore/Verdicts.antt =====
-- The keys that the comparisons of jobs/diffcore.py walk, and when a verdict passes, over all keys and
-- not over the sorted lists of the code.
use nautobot_testsuite.Base.{
  ◌≡◌, sym, ◌∙◌, ◌↔◌, true, List, Text, contains, sorted_set, gather, is_empty, is_empty-gather,
  contains-sorted_set, test_of_all, all_of_tests, false, map, refl, ◌&&◌, ◌||◌, not, Option, none,
  some, Dict, lookup, keys, select, is_some, contains-select, contains-append, contains-keys,
  text_eq_refl, arith, [], ◌∷◌, ◌++◌,
}
use nautobot_testsuite.DiffCore.Values.{Value, null, Fields, field?, field_keys}
use nautobot_testsuite.DiffCore.Report.{pass, verdict}
use nautobot_testsuite.DiffCore.Equality.{get_field, get_value, keys_only_in, all_keys}

-- A list gathered over a sorted set of keys is empty when the part of each key is.
pub gather_empty_iff {ℓ} :
    {B : Type ℓ} (f : Text → List B) (xs : List Text)
    → (is_empty (gather f (sorted_set xs)) ≡ true)
      ↔ ((k : Text) → contains k xs ≡ true → is_empty (f k) ≡ true)
gather_empty_iff f xs = (
  λ h k c.
      test_of_all (λ x. is_empty (f x)) k (sorted_set xs)
        (sym (is_empty-gather f (sorted_set xs)) ∙ h) (contains-sorted_set k xs ∙ c),
  λ h.
      is_empty-gather f (sorted_set xs)
      ∙ all_of_tests (λ x. is_empty (f x)) (sorted_set xs)
          (λ k c. h k (sym (contains-sorted_set k xs) ∙ c)),
)

-- A list of keys is empty when it contains none.
pub is_empty_iff : (xs : List Text) → (is_empty xs ≡ true) ↔ ((k : Text) → contains k xs ≡ false)
unfolding is_empty contains
is_empty_iff [] = (λ h k. refl, λ h. refl)
is_empty_iff (x ∷ xs) = (λ h k. cc, λ h. ground (arith, h x, text_eq_refl x))

pub is_empty-map {ℓ κ} :
    {A : Type ℓ} {B : Type κ} (f : A → B) (xs : List A) → is_empty (map f xs) ≡ is_empty xs
unfolding is_empty
is_empty-map f [] = refl
is_empty-map f (x ∷ xs) = refl

-- The keys of the first view that the second has not.
pub contains-keys_only_in {ℓ κ} :
    {A : Type ℓ} {B : Type κ} (k : Text) (d : Dict A) (e : Dict B)
    → contains k (keys_only_in d e) ≡ (is_some (lookup k d) && not (is_some (lookup k e)))
unfolding keys_only_in
contains-keys_only_in k d e = ground (
  arith,
  contains-sorted_set k (select (λ j. not (contains j (keys e))) (keys d)),
  contains-select (λ j. not (contains j (keys e))) k (keys d),
  contains-keys k d,
  contains-keys k e,
)

pub contains-all_keys {ℓ κ} :
    {A : Type ℓ} {B : Type κ} (k : Text) (d : Dict A) (e : Dict B)
    → contains k (all_keys d e) ≡ (is_some (lookup k d) || is_some (lookup k e))
unfolding all_keys
contains-all_keys k d e = ground (
  arith,
  contains-sorted_set k (keys d ++ keys e),
  contains-append k (keys d) (keys e),
  contains-keys k d,
  contains-keys k e,
)

pub contains-field_keys :
    {N : Type 0} (k : Text) (fs : Fields N) → contains k (field_keys fs) ≡ is_some (field? k fs)
unfolding contains field_keys field?
contains-field_keys k Fields.end = refl
contains-field_keys k (Fields.field j v fs) = ground (arith, contains-field_keys k fs)

pub get_field-none :
    {N : Type 0} (k : Text) (fs : Fields N) → field? k fs ≡ none → get_field k fs ≡ null
unfolding get_field
get_field-none k fs e = ground arith

pub get_value-some :
    {N : Type 0} (k : Text) (d : Dict (Value N)) (v : Value N)
    → lookup k d ≡ some v
    → get_value k d ≡ v
unfolding get_value
get_value-some k d v e = ground arith

pub verdict_iff {ℓ κ μ} :
    {A : Type ℓ} {B : Type κ} {C : Type μ} (xs : List A) (ys : List B) (zs : List C)
    → (verdict xs ys zs ≡ pass)
      ↔ ((is_empty xs ≡ true) × (is_empty ys ≡ true) × (is_empty zs ≡ true))
unfolding verdict
verdict_iff xs ys zs = ground arith

-- No entry is made of the keys of the first view that the second has not.
pub only_empty_iff {ℓ κ μ} :
    {A : Type ℓ} {B : Type κ} {C : Type μ} (f : Text → C) (d : Dict A) (e : Dict B)
    → (is_empty (map f (keys_only_in d e)) ≡ true)
      ↔ ((k : Text) → (is_some (lookup k d) && not (is_some (lookup k e))) ≡ false)
only_empty_iff f d e = rw (is_empty-map f (keys_only_in d e)) (
  λ h k. sym (contains-keys_only_in k d e) ∙ (is_empty_iff (keys_only_in d e)).0 h k,
  λ h. (is_empty_iff (keys_only_in d e)).1 (λ k. contains-keys_only_in k d e ∙ h k),
)

pub contains-shared_keys {ℓ κ} :
    {A : Type ℓ} {B : Type κ} (k : Text) (d : Dict A) (e : Dict B)
    → contains k (select (λ j. contains j (keys e)) (keys d))
      ≡ (is_some (lookup k d) && is_some (lookup k e))
contains-shared_keys k d e = ground (
  arith,
  contains-select (λ j. contains j (keys e)) k (keys d),
  contains-keys k d,
  contains-keys k e,
)

pub some_of_is_some {ℓ} : {A : Type ℓ} (o : Option A) → is_some o ≡ true → (a : A) × (o ≡ some a)
some_of_is_some none h = cc
some_of_is_some (some a) h = (a, refl)
