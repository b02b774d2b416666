-- ===== src/Bundle/Packing.antt =====
-- `ZipSink._plan`, `_parts` and `_prepare_finish` (jobs/bundle.py): which members go into which part.
use nautobot_testsuite.Base.{
  ℕ, ◌==◌, Bool, not, Option, none, some, List, [], ◌∷◌, ◌++◌, map, ltb, leb, if◌then◌else◌, length,
  select, any, is_empty,
}
use nautobot_testsuite.Bundle.Archive.{Zipfile, Info, archive_size}

-- _Member: the archive's entry and the identity of the metadata object that the run manifest shares.
pub record Member : Type 0 where
  pub info : Info
  pub metadata : ℕ

unfoldable pub infos_of : List Member → List Info
infos_of members = map (λ m. m.info) members

-- id(member.metadata) not in self._add_failed
unfoldable pub was_added : List ℕ → Member → Bool
unfolding any
was_added failed m = not (any (λ id. id == m.metadata) failed)

-- What finalization decides once: the entry that stands for the manifest, if it is attached, and the
-- members of each part.
pub record Finish : Type 0 where
  pub manifest : Option Info
  pub parts : List (List Member)

-- [manifest_info] if manifest_info is not None else []
unfoldable pub entry_list : Option Info → List Info
entry_list none = []
entry_list (some info) = info ∷ []

module _ (zip : Zipfile) (max_bytes : ℕ) where
  unfoldable pub exceeds : List Info → Bool
  unfolding archive_size
  exceeds infos = ltb max_bytes (archive_size zip infos)

  -- _plan: the groups that are attached, and the members that are marked missing.
  unfoldable pub plan : List ℕ → List (List Member) → List (List Member) × List Member
  unfolding select was_added is_empty infos_of
  plan failed [] = ([], [])
  plan failed (original ∷ groups) =
      let (kept, missing) = plan failed groups in
      let members = select (was_added failed) original in
      if is_empty members
      then (kept, missing)
      else if exceeds (infos_of members)
      then (kept, members ++ missing)
      else (members ∷ kept, missing)

  -- The loop of _parts, with the last part and the entries that count for it.
  unfoldable pub fill : List (List Member) → List Member → List Info → List (List Member)
  unfolding infos_of
  fill [] current infos = current ∷ []
  fill (members ∷ groups) current infos =
      let fresh = fill groups members (infos_of members) in
      let more = fill groups (current ++ members) (infos ++ infos_of members) in
      if exceeds (infos ++ infos_of members) then current ∷ fresh else more

  -- _parts
  unfoldable pub parts : List (List Member) → Option Info → List (List Member)
  parts groups manifest = fill groups [] (entry_list manifest)

  -- _prepare_finish, on the planned groups, with the manifest's entry and its bound
  unfoldable pub prepare_finish : List (List Member) → Info → Info → Finish
  prepare_finish groups info bound =
      if exceeds (info ∷ [])
      then record { manifest = none; parts = parts groups none }
      else if leb (length (parts groups (some info))) 1
      then record { manifest = some info; parts = parts groups (some info) }
      else if exceeds (bound ∷ [])
      then record { manifest = some info; parts = [] ∷ parts groups none }
      else record { manifest = some bound; parts = parts groups (some bound) }
