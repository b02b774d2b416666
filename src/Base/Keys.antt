-- ===== src/Base/Keys.antt =====
-- `sorted(set(xs))` on strings: the ascending list of the different keys of a list.
use mathlib.Core.Path.{◌≡◌, refl}
use mathlib.Core.Logic.{inl, inr}
use mathlib.Core.Bool.{Bool, true, false, ◌&&◌, ◌||◌}
use mathlib.Core.List.{List, [], ◌∷◌, ◌++◌}
use native.Mathlib.Omega.{arith}
use nautobot_testsuite.Base.Tests.{if◌then◌else◌, Bool-cases}
use nautobot_testsuite.Base.Lists.{all, select}
use nautobot_testsuite.Base.Strings.{
  Text, text_eq, text_lt, eq_of_text_eq, text_eq_refl, text_lt_trans, text_lt_total,
}

-- k in xs
unfoldable pub contains : Text → List Text → Bool
contains k [] = false
contains k (x ∷ xs) = text_eq x k || contains k xs

-- A key put at its place in an ascending list; a key that is there already is not put twice.
unfoldable pub insert_key : Text → List Text → List Text
insert_key k [] = k ∷ []
insert_key k (x ∷ xs) =
    let rest = insert_key k xs in
    if text_eq k x then x ∷ xs else if text_lt k x then k ∷ x ∷ xs else x ∷ rest

unfoldable pub sorted_set : List Text → List Text
unfolding insert_key
sorted_set [] = []
sorted_set (x ∷ xs) = insert_key x (sorted_set xs)

pub contains-insert_key :
    (k x : Text) (xs : List Text) → contains k (insert_key x xs) ≡ (text_eq x k || contains k xs)
unfolding contains insert_key
contains-insert_key k x [] = refl
contains-insert_key k x (y ∷ ys) = elim (Bool-cases (text_eq x y)) [
  | inl same ↦ rw same (rw (eq_of_text_eq x y same) (ground arith))
  | inr other ↦ rw other (ground (arith, contains-insert_key k x ys))
]

-- Sorting keeps exactly the keys of the list.
pub contains-sorted_set : (k : Text) (xs : List Text) → contains k (sorted_set xs) ≡ contains k xs
unfolding sorted_set contains
contains-sorted_set k [] = refl
contains-sorted_set k (x ∷ xs) =
    ground (arith, contains-insert_key k x (sorted_set xs), contains-sorted_set k xs)

pub contains-append :
    (k : Text) (xs ys : List Text) → contains k (xs ++ ys) ≡ (contains k xs || contains k ys)
unfolding contains
contains-append k [] ys = refl
contains-append k (x ∷ xs) ys = ground (arith, contains-append k xs ys)

-- A comprehension whose test is about the key keeps the keys that pass it.
pub contains-select :
    (p : Text → Bool) (k : Text) (xs : List Text)
    → contains k (select p xs) ≡ (contains k xs && p k)
unfolding contains select
contains-select p k [] = refl
contains-select p k (x ∷ xs) = elim (Bool-cases (text_eq x k)) [
  | inl same ↦ rw (eq_of_text_eq x k same) (ground (arith, contains-select p k xs, text_eq_refl k))
  | inr other ↦ ground (arith, contains-select p k xs, other)
]

-- Each key stands before all the keys behind it.
abbrev pub IsAscending : List Text → Type 0
IsAscending [] = Unit {0}
IsAscending (x ∷ xs) = (all (text_lt x) xs ≡ true) × IsAscending xs

all_lt-insert_key :
    (k x : Text) (xs : List Text)
    → text_lt k x ≡ true
    → all (text_lt k) xs ≡ true
    → all (text_lt k) (insert_key x xs) ≡ true
unfolding all insert_key
all_lt-insert_key k x [] h a = ground arith
all_lt-insert_key k x (y ∷ ys) h a = ground (arith, all_lt-insert_key k x ys)

all_lt_trans :
    (k x : Text) (xs : List Text)
    → text_lt k x ≡ true
    → all (text_lt x) xs ≡ true
    → all (text_lt k) xs ≡ true
unfolding all
all_lt_trans k x [] h a = refl
all_lt_trans k x (y ∷ ys) h a = ground (arith, all_lt_trans k x ys, text_lt_trans k x y)

insert_key-IsAscending :
    (k : Text) (xs : List Text) → IsAscending xs → IsAscending (insert_key k xs)
unfolding insert_key all
insert_key-IsAscending k [] s = (refl, tt)
insert_key-IsAscending k (x ∷ xs) s = elim (Bool-cases (text_eq k x)) [
  | inl same ↦ rw same s
  | inr other ↦ rw other (elim (Bool-cases (text_lt k x)) [
    | inl before ↦ rw before (ground (arith, all_lt_trans k x xs before), s)
    | inr behind ↦ rw behind (
      all_lt-insert_key x k xs (text_lt_total k x behind other) s.0,
      insert_key-IsAscending k xs s.1,
    )
  ])
]

pub sorted_set-IsAscending : (xs : List Text) → IsAscending (sorted_set xs)
unfolding sorted_set
sorted_set-IsAscending [] = tt
sorted_set-IsAscending (x ∷ xs) =
    insert_key-IsAscending x (sorted_set xs) (sorted_set-IsAscending xs)

-- A test that holds of all keys of a list holds of each that the list contains, and conversely.
pub test_of_all :
    (p : Text → Bool) (k : Text) (xs : List Text)
    → all p xs ≡ true
    → contains k xs ≡ true
    → p k ≡ true
unfolding all contains
test_of_all p k [] h c = cc
test_of_all p k (x ∷ xs) h c = elim (Bool-cases (text_eq x k)) [
  | inl same ↦ rw (← eq_of_text_eq x k same) (ground arith)
  | inr other ↦ test_of_all p k xs (ground arith) (ground (arith, other))
]

pub all_of_tests :
    (p : Text → Bool) (xs : List Text)
    → ((k : Text) → contains k xs ≡ true → p k ≡ true)
    → all p xs ≡ true
unfolding all contains
all_of_tests p [] h = refl
all_of_tests p (x ∷ xs) h =
    ground
      (arith, h x (ground (arith, text_eq_refl x)), all_of_tests p xs (λ k c. h k (ground arith)))

-- No key twice.
abbrev pub AreDistinct : List Text → Type 0
AreDistinct [] = Unit {0}
AreDistinct (n ∷ ns) = (contains n ns ≡ false) × AreDistinct ns
