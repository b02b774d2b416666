-- ===== src/Bundle/Files.antt =====
-- `FileSink` (jobs/bundle.py): each file is attached at once. How an attachment goes is a parameter.
use nautobot_testsuite.Base.{
  ℕ, Bool, true, false, ◌||◌, List, [], ◌∷◌, ◌++◌, if◌then◌else◌, Text, contains,
}
use nautobot_testsuite.Bundle.Sink.{
  Outcome, attached, not_attached, interrupted, interrupted_late, Done, done, raises,
  already_closed, interrupt,
}

-- `missing` has the metadata that carries "not_attached".
pub record FileSink : Type 0 where
  pub downloads : List Text
  pub missing : List ℕ
  pub is_finished : Bool
  pub is_closed : Bool

-- _attach_file: whether it returned, and the downloads behind it.
unfoldable pub attach_file : Text → Outcome → List Text → Bool × List Text
attach_file filename attached downloads = (true, downloads ++ filename ∷ [])
attach_file filename not_attached downloads = (true, downloads)
attach_file filename interrupted downloads = (false, downloads)
attach_file filename interrupted_late downloads = (false, downloads ++ filename ∷ [])

unfoldable pub is_attached : Outcome → Bool
is_attached attached = true
is_attached _ = false

-- add behind _ensure_open: every way out but a confirmed attachment leaves the flag.
unfoldable pub add_open : Text → ℕ → Outcome → FileSink → Done ℕ × FileSink
unfolding attach_file is_attached
add_open filename metadata outcome s =
    let (returned, downloads) = attach_file filename outcome s.downloads in
    let after = record s {
      downloads = downloads;
      missing = if is_attached outcome then s.missing else metadata ∷ s.missing;
    } in
    (if returned then done metadata else raises interrupt, after)

-- add
unfoldable pub add : Text → ℕ → Outcome → FileSink → Done ℕ × FileSink
unfolding add_open
add filename metadata outcome s =
    if s.is_closed || s.is_finished
    then (raises already_closed, s)
    else add_open filename metadata outcome s

-- The end of finish, when the manifest was attached or refused, or an exception came.
unfoldable pub finish_attached : Bool × List Text → FileSink → Done (List Text) × FileSink
finish_attached (true, downloads) s =
    (done downloads, record s { downloads = downloads; is_finished = true; is_closed = true })
finish_attached (false, downloads) s = (raises interrupt, record s { downloads = downloads })

-- finish
unfoldable pub finish : Text → Outcome → FileSink → Done (List Text) × FileSink
unfolding finish_attached attach_file contains
finish manifest_filename outcome s =
    if s.is_finished
    then (done s.downloads, s)
    else if s.is_closed
    then (raises already_closed, s)
    else finish_attached
        (if contains manifest_filename s.downloads
          then (true, s.downloads)
          else attach_file manifest_filename outcome s.downloads)
        s
