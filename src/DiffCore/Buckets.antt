-- ===== src/DiffCore/Buckets.antt =====
-- The added and removed buckets of the comparisons, the presence mode and the scalar mode.
use nautobot_testsuite.Base.{
  ◌≡◌, refl, ◌↔◌, true, false, ◌&&◌, not, none, some, List, [], ◌∷◌, map, arith, Text, Dict, lookup,
  keys, contains, is_empty, is_some, IsAscending, sorted_set-IsAscending, contains-keys, Bool-cases,
  inl, inr, contains-append, ◌++◌, select,
}
use nautobot_testsuite.Numeric.{Numeric}
use nautobot_testsuite.DiffCore.Values.{Value, value_eq}
use nautobot_testsuite.DiffCore.Config.{Compare}
use nautobot_testsuite.DiffCore.Report.{pass, Entry, Change}
use nautobot_testsuite.DiffCore.Equality.{
  get_value, keys_only_in, all_keys, entry_of, diff_equality_set, diff_equality_scalar,
  diff_presence, scalar_changes,
}
use nautobot_testsuite.DiffCore.Verdicts.{
  contains-keys_only_in, gather_empty_iff, verdict_iff, only_empty_iff,
}

-- The keys that a bucket names.
abbrev pub bucket_keys : {N : Type 0} → List (Entry N) → List Text
bucket_keys entries = map (λ e. e.key) entries

bucket_keys-map :
    {N : Type 0} (f : Text → Entry N)
    → ((k : Text) → (f k).key ≡ k)
    → (ks : List Text) → bucket_keys (map f ks) ≡ ks
bucket_keys-map f h [] = refl
bucket_keys-map f h (k ∷ ks) = ground (arith, h k, bucket_keys-map f h ks)

-- A bucket holds exactly the keys that one view has and the other has not, in ascending order.
abbrev pub IsBucket : {N M K : Type 0} → List (Entry N) → Dict M → Dict K → Type 0
IsBucket entries d e =
    ((k : Text)
      → contains k (bucket_keys entries) ≡ (is_some (lookup k d) && not (is_some (lookup k e))))
    × IsAscending (bucket_keys entries)

keys_only_in-IsAscending : {A B : Type 0} (d : Dict A) (e : Dict B) → IsAscending (keys_only_in d e)
unfolding keys_only_in
keys_only_in-IsAscending d e =
    sorted_set-IsAscending (select (λ k. not (contains k (keys e))) (keys d))

map-IsBucket :
    {N A B : Type 0} (f : Text → Entry N) (d : Dict A) (e : Dict B)
    → ((k : Text) → (f k).key ≡ k)
    → IsBucket (map f (keys_only_in d e)) d e
map-IsBucket f d e h =
    rw (bucket_keys-map f h (keys_only_in d e))
      (λ k. contains-keys_only_in k d e, keys_only_in-IsAscending d e)

module _ (n : Numeric) where
  open n use {Number}

  -- The added bucket of equality_set holds the keys of the second view alone, and the removed keys
  -- stand in "removed", or in "removed_ignored" with "removed" empty when removals are ignored.
  pub diff_equality_set-buckets :
      (pre post : Dict (Value Number)) (c : Compare Number)
      → let d = diff_equality_set n pre post c in
        IsBucket d.added post pre
        × (c.ignore_removed ≡ false → IsBucket d.removed pre post × (d.removed_ignored ≡ none))
        × (c.ignore_removed ≡ true
            → (d.removed ≡ [])
              × ((gone : List (Entry Number)) × (d.removed_ignored ≡ some gone)
                  × IsBucket gone pre post))
  unfolding diff_equality_set entry_of
  diff_equality_set-buckets pre post c = (
    map-IsBucket (entry_of post) post pre (λ k. refl),
    λ kept. rw kept (map-IsBucket (entry_of pre) pre post (λ k. refl), refl),
    λ ignored. rw ignored (
      refl,
      (
        map (entry_of pre) (keys_only_in pre post),
        refl,
        map-IsBucket (entry_of pre) pre post (λ k. refl),
      ),
    ),
  )

  scalar_changes_iff :
      (pre post : Dict (Value Number)) (k : Text)
      → (is_empty (scalar_changes n pre post k) ≡ true)
        ↔ (value_eq n (get_value k pre) (get_value k post) ≡ true)
  unfolding scalar_changes is_empty
  scalar_changes_iff pre post k = ground arith

  -- The verdict of equality_scalar is "pass" exactly when the two views have equal values under
  -- every key, a missing key read as None.
  pub diff_equality_scalar-pass_iff :
      (pre post : Dict (Value Number))
      → ((diff_equality_scalar n pre post).result ≡ pass)
        ↔ ((k : Text) → value_eq n (get_value k pre) (get_value k post) ≡ true)
  unfolding diff_equality_scalar
  diff_equality_scalar-pass_iff pre post = (
    λ h k.
        let (_, _, same) = (verdict_iff {A = Entry Number} {B = Entry Number} [] [] _).0 h in
        elim (Bool-cases (contains k (keys pre ++ keys post))) [
          | inl there ↦
              (scalar_changes_iff pre post k).0
                (unfold all_keys in (gather_empty_iff _ (keys pre ++ keys post)).0 same k there)
          | inr absent ↦
              unfold get_value value_eq in
              ground (
                arith,
                contains-append k (keys pre) (keys post),
                contains-keys k pre,
                contains-keys k post,
              )
        ],
    λ h. (verdict_iff {A = Entry Number} {B = Entry Number} [] [] _).1 (
      unfold is_empty in refl,
      unfold is_empty in refl,
      unfold all_keys in
          (gather_empty_iff _ (keys pre ++ keys post)).1
            (λ k _. (scalar_changes_iff pre post k).1 (h k)),
    ),
  )

-- The verdict of presence_only is "pass" exactly when the two views have the same keys.
pub diff_presence-pass_iff :
    {N : Type 0} (pre post : Dict (Value N))
    → ((diff_presence pre post).result ≡ pass)
      ↔ ((k : Text) → is_some (lookup k pre) ≡ is_some (lookup k post))
unfolding diff_presence
diff_presence-pass_iff {N} pre post = (
  λ h k.
      let (new, gone, _) = (verdict_iff {C = Change N} _ _ []).0 h in
      ground (arith, (only_empty_iff _ post pre).0 new k, (only_empty_iff _ pre post).0 gone k),
  λ h. (verdict_iff {C = Change N} _ _ []).1 (
    (only_empty_iff _ post pre).1 (λ k. ground (arith, h k)),
    (only_empty_iff _ pre post).1 (λ k. ground (arith, h k)),
    unfold is_empty in refl,
  ),
)
