-- ===== src/Bundle/Sink.antt =====
-- The state of a `ZipSink` (jobs/bundle.py), its flags, and `add`.
use nautobot_testsuite.Base.{
  ℕ, ◌==◌, Bool, false, ◌||◌, Option, none, some, List, [], ◌∷◌, ◌++◌, if◌then◌else◌, Text, text_eq,
  contains,
}
use nautobot_testsuite.Bundle.Archive.{Info}
use nautobot_testsuite.Bundle.Packing.{Member, Finish}

-- The key of a group: a device, or the file itself.
pub data Key : Type 0 where
  of_device of_file : Text → Key

unfoldable pub same_key : Key → Key → Bool
unfolding text_eq
same_key (of_device a) k = elim k [ of_device b ↦ text_eq a b | of_file b ↦ false ]
same_key (of_file a) k = elim k [ of_device b ↦ false | of_file b ↦ text_eq a b ]

-- A ZipSink. `missing` has the metadata that carries "not_attached", `tries` counts the attachments
-- that were begun.
pub record Sink : Type 0 where
  pub groups : List (Key × List Member)
  pub names : List Text
  pub add_failed : List ℕ
  pub confirmed : List ℕ
  pub missing : List ℕ
  pub attempted : List Text
  pub downloads : List Text
  pub finish_parts : Option Finish
  pub manifest_filename : Text
  pub is_finalizing : Bool
  pub is_finished : Bool
  pub is_closed : Bool
  pub tries : ℕ

-- How the attachment of a part goes: the callback says that it is attached or that it is not; an
-- exception comes before the callback has attached it, or behind that, before it is recorded.
pub data Outcome : Type 0 where
  attached not_attached interrupted interrupted_late : Outcome

pub data SinkError : Type 0 where
  already_closed finalization_started duplicate_name write_failed filename_changed interrupt :
      SinkError

pub data Done (A : Type 0) : Type 0 where
  done : A → Done A
  raises : SinkError → Done A

-- id(metadata) in a set
unfoldable pub has_id : ℕ → List ℕ → Bool
has_id id [] = false
has_id id (x ∷ xs) = x == id || has_id id xs

-- The members whose flag is taken away.
unfoldable pub drop_id : ℕ → List ℕ → List ℕ
drop_id id [] = []
drop_id id (x ∷ xs) = let rest = drop_id id xs in if x == id then rest else x ∷ rest

-- member.metadata["not_attached"] = True for all of them, and .pop("not_attached", None)
unfoldable pub flagged : List Member → List ℕ → List ℕ
flagged [] missing = missing
flagged (m ∷ members) missing = m.metadata ∷ flagged members missing

unfoldable pub cleared : List Member → List ℕ → List ℕ
unfolding drop_id
cleared [] missing = missing
cleared (m ∷ members) missing = drop_id m.metadata (cleared members missing)

-- _mark_missing
unfoldable pub mark_missing : List Member → Sink → Sink
unfolding flagged
mark_missing members s = record s { missing = flagged members s.missing }

-- _mark_confirmed
unfoldable pub mark_confirmed : List Member → Sink → Sink
unfolding cleared flagged
mark_confirmed members s = record s {
  missing = cleared members s.missing;
  confirmed = flagged members s.confirmed;
}

-- self._groups.setdefault(key, []).append(member)
unfoldable pub append_member : Key → Member → List (Key × List Member) → List (Key × List Member)
unfolding same_key
append_member key m [] = (key, m ∷ []) ∷ []
append_member key m ((k, members) ∷ groups) =
    let rest = append_member key m groups in
    if same_key k key then (k, members ++ m ∷ []) ∷ groups else (k, members) ∷ rest

-- add of a member; `written` is none where the serialization or the write into the archive raises
unfoldable pub add : Text → Option Text → ℕ → Option Info → Sink → Done ℕ × Sink
unfolding contains append_member
add filename device metadata written s =
    if s.is_closed || s.is_finished
    then (raises already_closed, s)
    else if s.is_finalizing
    then (raises finalization_started, s)
    else if contains filename s.names
    then (raises duplicate_name, s)
    else elim written [
      | none ↦ (
        raises write_failed,
        record s { missing = metadata ∷ s.missing; add_failed = metadata ∷ s.add_failed },
      )
      | some info ↦
          let key = elim device as (λ d. Key) [ none ↦ of_file filename | some d ↦ of_device d ] in
          (
            done metadata,
            record s {
              names = s.names ++ filename ∷ [];
              groups = append_member key (record { info = info; metadata = metadata }) s.groups;
            },
          )
    ]
