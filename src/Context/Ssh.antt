-- ===== src/Context/Ssh.antt =====
-- `CollectorContext.run_ssh` (jobs/context.py): one command over SSH, with the copies that the context
-- keeps of its output. The channel echo is held back by the guard of `EchoGuard`.
use nautobot_testsuite.Base.{
  ℕ, Bool, true, false, Option, none, some, List, ◌∷◌, ◌++◌, Text, codes, length, if◌then◌else◌,
  is_some,
}
use nautobot_testsuite.Context.Redaction.{
  Answer, Failure, no_transport, passed_on, withheld, time_limit, redacted,
}
use nautobot_testsuite.Context.Reads.{Result, returns, throws}

-- What `self.ssh.run` gives: text, with stderr and the exit status for a Linux session; or an
-- exception, with the partial evidence that a Linux session adds to it.
pub data SshAnswer : Type 0 where
  prints : Text → Option (Text × Option ℕ) → SshAnswer
  fails : Text → Text → Option (Text × Text × Option ℕ) → SshAnswer

-- self._last_ssh_result
pub record Evidence : Type 0 where
  pub stdout : Option Text
  pub stderr : Option Text
  pub exit_status : Option ℕ
  pub complete : Bool

-- An entry of the trace; the outer none is a missing key.
pub record SshEntry : Type 0 where
  pub target : Text
  pub is_ok : Bool
  pub chars : Option ℕ
  pub message : Option Text
  pub output : Option (Option Text)
  pub stderr_copy : Option (Option Text)
  pub status : Option (Option ℕ)

pub record SshState : Type 0 where
  pub debug : Bool
  pub trace : List SshEntry
  pub last_result : Option Evidence

-- A text through _redacted: none where the time limit passes, else what is kept and the failure.
abbrev pub Kept : Type 0
Kept = Option (Option Text × Option Text)

unfoldable pub ssh_entry : Text → SshEntry
ssh_entry command = record {
  target = command;
  is_ok = false;
  chars = none;
  message = none;
  output = none;
  stderr_copy = none;
  status = none;
}

-- if self.debug: entry[...] = text
unfoldable pub if_debug : Bool → Option Text → Option (Option Text)
if_debug debug text = if debug then some text else none

unfoldable pub keep_evidence : SshEntry → Evidence → SshState → SshState
keep_evidence entry evidence s = record s { trace = entry ∷ s.trace; last_result = some evidence }

unfoldable pub keep_entry : SshEntry → SshState → SshState
keep_entry entry s = record s { trace = entry ∷ s.trace }

-- The handler of an exception: its message, then the evidence that it carries.
unfoldable pub after_failure :
    Text → Failure → Kept → Option (Kept × Kept × Option ℕ) → SshState → Result Text × SshState
unfolding ssh_entry if_debug keep_evidence keep_entry
after_failure command failed none evidence s = (throws time_limit, s)
after_failure command failed (some (message, _)) none s =
    (throws failed, keep_entry (record (ssh_entry command) { message = message }) s)
after_failure command failed (some (message, _)) (some (none, err, status)) s =
    (throws time_limit, s)
after_failure command failed (some (message, _)) (some (some out, none, status)) s =
    (throws time_limit, s)
after_failure command failed (some (message, _)) (some (some (out, _), some (err, _), status)) s = (
  throws failed,
  keep_evidence
      (record (ssh_entry command) {
        message = message;
        status = some status;
        output = if_debug s.debug out;
        stderr_copy = if_debug s.debug err;
      })
      (record { stdout = out; stderr = err; exit_status = status; complete = false }) s,
)

-- The end of a read: what the caller receives.
unfoldable pub hand_over : Bool → Text → Option Text → Option Text → Result Text
hand_over verbatim output text (some name) =
    if verbatim then returns (some output) else throws (withheld name)
hand_over verbatim output text none = if verbatim then returns (some output) else returns text

-- failure or stderr_failure
unfoldable pub first_failure : Option Text → Option Text → Option Text
first_failure none later = later
first_failure (some name) later = some name

unfoldable pub ok_entry : Text → Text → SshEntry
ok_entry command output = record (ssh_entry command) { is_ok = true; chars = some (length output) }

-- The rest of a read that printed. `verbatim` is `redact is None or return_verbatim`.
unfoldable pub after_output :
    Text → Bool → Text → Kept → Option (Kept × Option ℕ) → SshState → Result Text × SshState
unfolding ok_entry ssh_entry if_debug keep_evidence keep_entry hand_over first_failure
after_output command verbatim output none stderr s = (throws time_limit, s)
after_output command verbatim output (some (text, failed)) none s = (
  hand_over verbatim output text failed,
  keep_entry (record (ok_entry command output) { output = if_debug s.debug text }) s,
)
after_output command verbatim output (some (text, failed)) (some (none, status)) s =
    (throws time_limit, s)
after_output command verbatim output (some (text, failed)) (some (some (err, err_failed), status))
      s =
    (
      hand_over verbatim output text (first_failure failed err_failed),
      keep_evidence
          (record (ok_entry command output) {
            status = some status;
            output = if_debug s.debug text;
            stderr_copy = if_debug s.debug err;
          })
          (record {
            stdout = text;
            stderr = err;
            exit_status = status;
            complete = if is_some (first_failure failed err_failed) then false else true;
          })
          s,
    )

abbrev pub TextRedactor : Type 0
TextRedactor = Option (Text → Answer Text)

unfoldable pub after_run :
    TextRedactor → Bool → Text → SshAnswer → SshState → Result Text × SshState
unfolding after_output after_failure redacted
after_run redact verbatim command (prints output extra) s =
    after_output command (if is_some redact then verbatim else true) output
      (redacted redact (some output))
      (elim extra [
        | none ↦ none
        | some (stderr, status) ↦ some (redacted redact (some stderr), status)
      ])
      s
after_run redact verbatim command (fails name message evidence) s =
    after_failure command (passed_on name message)
      (redacted redact (some (name ++ (codes ": " ++ message))))
      (elim evidence [
        | none ↦ none
        | some (stdout, stderr, status) ↦
            some (redacted redact (some stdout), redacted redact (some stderr), status)
      ])
      s

-- run_ssh; the transport is none where the device has no SSH, else its answer to the command.
unfoldable pub run_ssh :
    Option (Text → SshAnswer) → TextRedactor → Bool → Text → SshState → Result Text × SshState
unfolding after_run
run_ssh none redact verbatim command s = (throws no_transport, s)
run_ssh (some transport) redact verbatim command s =
    after_run redact verbatim command (transport command) (record s { last_result = none })
