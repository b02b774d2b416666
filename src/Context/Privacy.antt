-- ===== src/Context/Privacy.antt =====
-- What a redacted read can store or return (jobs/context.py).
use nautobot_testsuite.Base.{
  ◌≡◌, refl, Bool, true, false, Option, none, some, List, [], ◌∷◌, Text, inl, inr, if◌then◌else◌,
  ◌⊎◌, ℕ,
}
use nautobot_testsuite.Context.Redaction.{
  Answer, gives, raises, passed_on, Redacted, clean, failure, interrupted, redact_payload,
  is_time_limit,
}
use nautobot_testsuite.Context.Reads.{
  error, Entry, Key, Client, State, Result, returns, throws, raised_text, withheld_text,
}

answer_cases :
    {A : Type 0} (a : Answer A)
    → ((x : A) × (a ≡ gives x)) ⊎ ((name : Text) × (message : Text) × (a ≡ raises name message))
answer_cases (gives x) = inl (x, refl)
answer_cases (raises name message) = inr (name, message, refl)

module _ {P : Type 0} (IsClean : P → Type 0) where
  -- A payload that is there is clean.
  abbrev pub CleanOption : Option P → Type 0
  CleanOption none = Unit {0}
  CleanOption (some p) = IsClean p

  abbrev pub CleanPayload : Option (Option P) → Type 0
  CleanPayload none = Unit {0}
  CleanPayload (some answer) = CleanOption answer

  abbrev pub CleanCache : {K : Type 0} → List (Key K × Option P) → Type 0
  CleanCache [] = Unit {0}
  CleanCache ((k, answer) ∷ cache) = CleanOption answer × CleanCache cache

  abbrev pub CleanResult : Result P → Type 0
  CleanResult (returns answer) = CleanOption answer
  CleanResult (throws f) = Unit {0}

  -- Whatever the redactor gives is clean.
  abbrev pub Cleans : (P → Answer P) → Type 0
  Cleans redact = (p q : P) → redact p ≡ gives q → IsClean q

  abbrev pub CleanRedacted : Redacted P → Type 0
  CleanRedacted (clean q) = IsClean q
  CleanRedacted _ = Unit {0}

  handled_clean : (name : Text) (b : Bool) → CleanRedacted (if b then interrupted else failure name)
  handled_clean name true = tt
  handled_clean name false = tt

  pub redact_payload_clean :
      (redact : P → Answer P) → Cleans redact → (p : P) → CleanRedacted (redact_payload redact p)
  unfolding redact_payload
  redact_payload_clean redact cleans p = elim (answer_cases (redact p)) [
    | inl (q, e) ↦ rw (e, redact_payload) (cleans p q e)
    | inr (name, message, e) ↦ rw (e, redact_payload) (handled_clean name (is_time_limit name))
  ]

  -- What the context says of errors is either the words of a transport's own exception, or that an
  -- answer is withheld, with the name of the redactor's exception.
  module _ (IsOwn : Text → Type 0) where
    abbrev pub CleanError : Option Text → Type 0
    CleanError none = Unit {0}
    CleanError (some t) = ((name : Text) × (t ≡ withheld_text name)) ⊎ IsOwn t

    -- The texts of the exceptions that a client raises.
    abbrev pub Quotes : {K : Type 0} → Client P K → Type 0
    Quotes {K} client =
        (asked : ℕ) (path : Text) (kwargs : K) (name message : Text)
        → client.fetch asked path kwargs ≡ raises name message
        → IsOwn (raised_text name message)

    abbrev pub QuotesOption : {K : Type 0} → Option (Client P K) → Type 0
    QuotesOption none = Unit {0}
    QuotesOption (some client) = Quotes client

    abbrev pub CleanTrace : {K : Type 0} → List (Entry P K) → Type 0
    CleanTrace [] = Unit {0}
    CleanTrace (e ∷ trace) = CleanPayload e.payload × CleanError e.error × CleanTrace trace

    -- Nothing that the context holds is unclean.
    pub record IsPrivate {K : Type 0} (s : State P K) : Type 0 where
      pub clean_trace : CleanTrace s.trace
      pub clean_cache : CleanCache s.cache

    abbrev pub CleanThrow : Result P → Type 0
    CleanThrow (throws (passed_on name message)) = IsOwn (raised_text name message)
    CleanThrow _ = Unit {0}

    module _ {K : Type 0} (redact : P → Answer P) (cleans : Cleans redact) where
      abbrev Fine : Result P × State P K → Type 0
      Fine (r, s) = CleanResult r × CleanThrow r × IsPrivate s
