-- ===== src/Context/Redaction.antt =====
-- `_redacted`, `_traced` and `_redact_payload` (jobs/context.py): redactors that may raise.
use nautobot_testsuite.Base.{Bool, Option, none, some, ◌++◌, Text, codes, text_eq, if◌then◌else◌}

-- What a call of outside code gives: a value, or an exception by its type's name and its message.
pub data Answer {ℓ} (A : Type ℓ) : Type ℓ where
  gives : A → Answer A
  raises : Text → Text → Answer A

-- An exception that leaves a read of the context.
pub data Failure : Type 0 where
  -- RuntimeError: no transport
  no_transport : Failure
  -- the transport's own exception, passed on
  passed_on : Text → Text → Failure
  -- RuntimeError: the answer is withheld, with the name of the redactor's exception
  withheld : Text → Failure
  -- SoftTimeLimitExceeded, which every handler passes on
  time_limit : Failure

-- The result of applying a redactor behind its handler: the redacted value, the name of the failure,
-- or the time limit that passes through.
pub data Redacted {ℓ} (A : Type ℓ) : Type ℓ where
  clean : A → Redacted A
  failure : Text → Redacted A
  interrupted : Redacted A

-- type(exc).__name__ == "SoftTimeLimitExceeded"
unfoldable pub is_time_limit : Text → Bool
is_time_limit name = text_eq name (codes "SoftTimeLimitExceeded")

-- _redact_payload
unfoldable pub redact_payload {ℓ} : {P : Type ℓ} → (P → Answer P) → P → Redacted P
redact_payload redact payload = elim (redact payload) [
  | gives p ↦ clean p
  | raises name message ↦ if is_time_limit name then interrupted else failure name
]

-- "[withheld: redaction failed with %s]" % (name,)
unfoldable pub withheld_marker : Text → Text
withheld_marker name = codes "[withheld: redaction failed with " ++ (name ++ codes "]")

-- _redacted: the text that may be kept and the failure's name, or the time limit (none)
unfoldable pub redacted :
    Option (Text → Answer Text) → Option Text → Option (Option Text × Option Text)
redacted none text = some (text, none)
redacted (some redact) none = some (none, none)
redacted (some redact) (some text) = elim (redact_payload redact text) [
  | clean t ↦ some (some t, none)
  | failure name ↦ some (some (withheld_marker name), some name)
  | interrupted ↦ none
]
