-- ===== src/DiffCore/Equality.antt =====
-- `_diff_equality_set`, `_diff_equality_scalar` and `_diff_presence` (jobs/diffcore.py).
use nautobot_testsuite.Base.{
  Bool, false, not, Option, none, some, List, [], ◌∷◌, ◌++◌, map, if◌then◌else◌, Text, Dict, lookup,
  keys, contains, sorted_set, select, gather,
}
use nautobot_testsuite.Numeric.{Numeric}
use nautobot_testsuite.DiffCore.Values.{
  Value, null, bool, num, obj, Fields, field?, field_keys, value_eq, of_bool,
}
use nautobot_testsuite.DiffCore.Config.{Compare, Band, field_cfg}
use nautobot_testsuite.DiffCore.Report.{Entry, Change, Diff, verdict}
use nautobot_testsuite.DiffCore.Band.{within_band}

-- old_val.get(fld), None where the field is missing
unfoldable pub get_field : {N : Type 0} → Text → Fields N → Value N
unfolding field?
get_field fld fs = elim (field? fld fs) [ none ↦ null | some v ↦ v ]

-- view.get(key), None where the key is missing
unfoldable pub get_value : {N : Type 0} → Text → Dict (Value N) → Value N
unfolding lookup
get_value key view = elim (lookup key view) [ none ↦ null | some v ↦ v ]

-- The keys of the first view that the second has not, sorted.
unfoldable pub keys_only_in {ℓ κ} : {A : Type ℓ} {B : Type κ} → Dict A → Dict B → List Text
unfolding sorted_set select contains keys
keys_only_in d e = sorted_set (select (λ k. not (contains k (keys e))) (keys d))

unfoldable pub shared_keys {ℓ κ} : {A : Type ℓ} {B : Type κ} → Dict A → Dict B → List Text
unfolding sorted_set select contains keys
shared_keys d e = sorted_set (select (λ k. contains k (keys e)) (keys d))

unfoldable pub all_keys {ℓ κ} : {A : Type ℓ} {B : Type κ} → Dict A → Dict B → List Text
unfolding sorted_set keys
all_keys d e = sorted_set (keys d ++ keys e)

-- {"key": key, "value": view[key]}
unfoldable pub entry_of : {N : Type 0} → Dict (Value N) → Text → Entry N
entry_of view key = record { key = key; value = lookup key view }

module _ (n : Numeric) where
  open n use {Number}

  -- isinstance(value, (int, float)), with the number; bool is a subclass of int
  unfoldable pub as_number : Value Number → Option Number
  as_number (bool b) = some (of_bool n b)
  as_number (num x) = some x
  as_number _ = none

  -- The test that skips a field: a band is configured, both values are numbers, and the new one is
  -- within the band.
  unfoldable pub in_tolerance : Option (Band Number) → Value Number → Value Number → Bool
  unfolding as_number
  in_tolerance none a b = false
  in_tolerance (some band) a b = elim (as_number a) [
    | none ↦ false
    | some x ↦ elim (as_number b) [ none ↦ false | some y ↦ within_band n x y band ]
  ]

  -- The body of the loop over the fields of two dict values.
  unfoldable pub field_changes :
      Compare Number → Text → Fields Number → Fields Number → Text → List (Change Number)
  unfolding get_field in_tolerance
  field_changes compare key fs gs fld =
      let a = get_field fld fs in
      let b = get_field fld gs in
      if value_eq n a b
      then []
      else if in_tolerance (field_cfg compare fld).tolerance a b
      then []
      else record { key = key; field = some fld; old = a; new = b; section = [] } ∷ []

  -- The branch of two values that are not equal.
  unfoldable pub value_changes :
      Compare Number → Text → Value Number → Value Number → List (Change Number)
  unfolding field_changes gather sorted_set field_keys
  value_changes compare key (obj fs) (obj gs) =
      gather (field_changes compare key fs gs) (sorted_set (field_keys fs ++ field_keys gs))
  value_changes compare key old new =
      record { key = key; field = none; old = old; new = new; section = [] } ∷ []

  -- The body of the loop over the shared keys.
  unfoldable pub key_changes :
      Compare Number → Dict (Value Number) → Dict (Value Number) → Text → List (Change Number)
  unfolding value_changes get_value
  key_changes compare pre post key =
      let old = get_value key pre in
      let new = get_value key post in
      if value_eq n old new then [] else value_changes compare key old new

  -- `diff["removed"]` after the option "ignore_removed" is applied
  unfoldable pub diff_equality_set :
      Dict (Value Number) → Dict (Value Number) → Compare Number → Diff Number
  unfolding keys_only_in shared_keys entry_of key_changes gather verdict
  diff_equality_set pre post compare =
      let added = map (entry_of post) (keys_only_in post pre) in
      let gone = map (entry_of pre) (keys_only_in pre post) in
      let changed = gather (key_changes compare pre post) (shared_keys pre post) in
      let removed = if compare.ignore_removed then [] else gone in
      record {
        result = verdict added removed changed;
        added = added;
        removed = removed;
        changed = changed;
        removed_ignored = if compare.ignore_removed then some gone else none;
      }

  -- The body of the loop over the fields of a scalar comparison.
  unfoldable pub scalar_changes :
      Dict (Value Number) → Dict (Value Number) → Text → List (Change Number)
  unfolding get_value
  scalar_changes pre post fld =
      let old = get_value fld pre in
      let new = get_value fld post in
      if value_eq n old new
      then []
      else record { key = fld; field = none; old = old; new = new; section = [] } ∷ []

  unfoldable pub diff_equality_scalar : Dict (Value Number) → Dict (Value Number) → Diff Number
  unfolding all_keys gather verdict
  diff_equality_scalar pre post =
      let changed = gather (scalar_changes pre post) (all_keys pre post) in
      record {
        result = verdict {A = Entry Number} {B = Entry Number} [] [] changed;
        added = [];
        removed = [];
        changed = changed;
        removed_ignored = none;
      }

-- {"key": key}
bare_entry : {N : Type 0} → Text → Entry N
bare_entry key = record { key = key; value = none }

unfoldable pub diff_presence : {N : Type 0} → Dict (Value N) → Dict (Value N) → Diff N
unfolding keys_only_in bare_entry verdict
diff_presence {N} pre post =
    let added = map bare_entry (keys_only_in post pre) in
    let removed = map bare_entry (keys_only_in pre post) in
    record {
      result = verdict {C = Change N} added removed [];
      added = added;
      removed = removed;
      changed = [];
      removed_ignored = none;
    }
