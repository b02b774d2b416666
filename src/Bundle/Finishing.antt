-- ===== src/Bundle/Finishing.antt =====
-- `ZipSink.finish` and `close` (jobs/bundle.py), with the callback that attaches a file and the
-- interruptions of a run as parameters.
use nautobot_testsuite.Base.{
  ℕ, ◌+◌, ◌-◌, ◌==◌, Bool, true, false, ◌&&◌, not, Option, none, some, List, [], ◌∷◌, ◌++◌, map,
  if◌then◌else◌, length, take, select, is_empty, Text, codes, text_eq, contains, digits, ends_with,
  lower,
}
use nautobot_testsuite.Bundle.Archive.{Zipfile, Info}
use nautobot_testsuite.Bundle.Packing.{Member, Finish, infos_of, exceeds, plan, prepare_finish}
use nautobot_testsuite.Bundle.Sink.{
  Sink, Outcome, attached, not_attached, interrupted, interrupted_late, Key, Done, done, raises,
  already_closed, filename_changed, interrupt, mark_missing, mark_confirmed, cleared, has_id,
}

-- A part with its file name; the first part carries the manifest.
pub record Item : Type 0 where
  pub name : Text
  pub members : List Member
  pub is_first : Bool

-- _part_filename
unfoldable pub part_filename : Text → ℕ → ℕ → Text
unfolding lower ends_with digits
part_filename filename index count =
    let stem =
      if ends_with (lower filename) (codes ".zip")
      then take (length filename - 4) filename
      else filename in
    if count == 1
    then filename
    else stem ++ codes "_part" ++ digits (index + 1) ++ codes "of" ++ digits count ++ codes ".zip"

unfoldable pub items_from : Text → ℕ → ℕ → List (List Member) → List Item
unfolding part_filename
items_from filename count index [] = []
items_from filename count index (members ∷ parts) =
    record { name = part_filename filename index count; members = members; is_first = index == 0 }
    ∷ items_from filename count (index + 1) parts

-- list(range(1, len(parts))) + [0]
unfoldable pub first_last : List Item → List Item
first_last [] = []
first_last (i ∷ items) = items ++ i ∷ []

-- What the code of other packages decides: the entry of the manifest for the flags it would show, its
-- bound, and how the attachments go, one after another.
pub record Run : Type 0 where
  pub manifest_info : List ℕ → Info
  pub manifest_bound : Info
  pub outcome : ℕ → Outcome

module _ (zip : Zipfile) (max_bytes : ℕ) (filename : Text) (run : Run) where
  -- Whether the manifest goes into a part: it is planned, and with the flags of now it still fits.
  unfoldable pub carries_manifest : Finish → Item → Sink → Bool
  unfolding exceeds infos_of
  carries_manifest plan item s =
      item.is_first
      && (elim plan.manifest [ none ↦ false | some info ↦ true ])
      && not (exceeds zip max_bytes (run.manifest_info s.missing ∷ infos_of item.members))

  unfoldable pub attach : Item → Outcome → Sink → Bool × Sink
  unfolding mark_missing mark_confirmed
  attach item attached s = (
    true,
    mark_confirmed item.members (record s {
      downloads = s.downloads ++ item.name ∷ [];
      attempted = item.name ∷ s.attempted;
    }),
  )
  attach item not_attached s =
      (true, mark_missing item.members (record s { attempted = item.name ∷ s.attempted }))
  attach item interrupted s = (false, s)
  attach item interrupted_late s = (false, record s { downloads = s.downloads ++ item.name ∷ [] })

  -- The part that is still pending.
  unfoldable pub attempt : Finish → Item → Sink → Bool × Sink
  unfolding carries_manifest attach cleared is_empty
  attempt plan item s =
      let c = record s { missing = cleared item.members s.missing } in
      if is_empty item.members && not (carries_manifest plan item c)
      then (true, record c { attempted = item.name ∷ c.attempted })
      else attach item (run.outcome c.tries) (record c { tries = c.tries + 1 })

  -- The body of the loop of finish: whether it goes on, and the sink.
  unfoldable pub visit : Finish → Item → Sink → Bool × Sink
  unfolding contains mark_missing mark_confirmed attempt
  visit plan item s =
      if contains item.name s.downloads
      then (true, mark_confirmed item.members s)
      else if contains item.name s.attempted
      then (true, mark_missing item.members s)
      else attempt plan item s

  unfoldable pub visit_all : Finish → List Item → Sink → Bool × Sink
  unfolding visit
  visit_all plan [] s = (true, s)
  visit_all plan (item ∷ items) s =
      let (goes_on, after) = visit plan item s in
      let rest = visit_all plan items after in if goes_on then rest else (false, after)

  -- _prepare_finish
  unfoldable pub prepare : Text → Sink → Finish × Sink
  unfolding plan prepare_finish mark_missing
  prepare manifest_filename s =
      let (kept, gone) = plan zip max_bytes s.add_failed (map (λ g. g.1) s.groups) in
      let marked = mark_missing gone s in
      let parts =
        prepare_finish zip max_bytes kept (run.manifest_info marked.missing) run.manifest_bound in
      (parts, record marked { finish_parts = some parts; manifest_filename = manifest_filename })

  -- finish behind the preparation
  unfoldable pub finish_planned : Finish → Sink → Done (List Text) × Sink
  unfolding visit_all items_from first_last
  finish_planned plan s =
      let items = first_last (items_from filename (length plan.parts) 0 plan.parts) in
      let (ended, after) = visit_all plan items s in
      if ended
      then (done after.downloads, record after { is_finished = true; is_closed = true })
      else (raises interrupt, after)

  -- finish on a sink whose parts are planned, or not yet.
  unfoldable pub finish_from : Text → Sink → Option Finish → Done (List Text) × Sink
  unfolding prepare finish_planned text_eq
  finish_from manifest_filename s none =
      let fresh = prepare manifest_filename s in finish_planned fresh.0 fresh.1
  finish_from manifest_filename s (some planned) =
      if text_eq manifest_filename s.manifest_filename
      then finish_planned planned s
      else (raises filename_changed, s)

  -- finish
  unfoldable pub finish : Text → Sink → Done (List Text) × Sink
  unfolding finish_from
  finish manifest_filename s =
      if s.is_finished
      then (done s.downloads, s)
      else if s.is_closed
      then (raises already_closed, s)
      else finish_from manifest_filename (record s { is_finalizing = true }) s.finish_parts

-- The members that close marks missing: those that are not confirmed.
unfoldable pub unconfirmed : List ℕ → List (Key × List Member) → List Member
unfolding has_id select
unconfirmed confirmed [] = []
unconfirmed confirmed ((key, members) ∷ groups) =
    select (λ m. not (has_id m.metadata confirmed)) members ++ unconfirmed confirmed groups

-- close
unfoldable pub close : Sink → Sink
unfolding unconfirmed mark_missing
close s =
    let closed = record s { is_closed = true } in
    if s.is_finished then closed else mark_missing (unconfirmed s.confirmed s.groups) closed
