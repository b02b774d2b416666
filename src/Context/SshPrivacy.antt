-- ===== src/Context/SshPrivacy.antt =====
-- What a redacted SSH read can store or return (jobs/context.py).
use nautobot_testsuite.Base.{ℕ, Option, none, some, List, [], ◌∷◌, Text}
use nautobot_testsuite.Context.Privacy.{CleanOption, CleanPayload}
use nautobot_testsuite.Context.Ssh.{Evidence, SshEntry, SshState, Kept}

module _ (IsClean : Text → Type 0) where
  abbrev pub CleanEntries : List SshEntry → Type 0
  CleanEntries [] = Unit {0}
  CleanEntries (e ∷ trace) =
      (CleanOption IsClean e.message
        × CleanPayload IsClean e.output
        × CleanPayload IsClean e.stderr_copy)
      × CleanEntries trace

  abbrev pub CleanEvidence : Option Evidence → Type 0
  CleanEvidence none = Unit {0}
  CleanEvidence (some e) = CleanOption IsClean e.stdout × CleanOption IsClean e.stderr

  -- No text that the context holds is unclean.
  pub record IsSealed (s : SshState) : Type 0 where
    pub clean_entries : CleanEntries s.trace
    pub clean_evidence : CleanEvidence s.last_result

  abbrev CleanKept : Kept → Type 0
  CleanKept none = Unit {0}
  CleanKept (some (text, failed)) = CleanOption IsClean text

  abbrev CleanPartial : Option (Kept × Kept × Option ℕ) → Type 0
  CleanPartial none = Unit {0}
  CleanPartial (some (out, err, status)) = CleanKept out × CleanKept err

  abbrev CleanExtra : Option (Kept × Option ℕ) → Type 0
  CleanExtra none = Unit {0}
  CleanExtra (some (err, status)) = CleanKept err
