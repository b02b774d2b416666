-- ===== src/Context/Reads.antt =====
-- `CollectorContext.get` and `.call` (jobs/context.py): reads that are cached per run, redacted and
-- traced. The two methods are one read over two transport slots.
use nautobot_testsuite.Base.{
  ℕ, ◌+◌, Bool, ◌&&◌, Option, none, some, List, [], ◌∷◌, ◌++◌, Text, codes, text_eq, if◌then◌else◌,
}
use nautobot_testsuite.Context.Redaction.{
  Answer, gives, raises, Failure, no_transport, passed_on, withheld, time_limit, clean, failure,
  interrupted, redact_payload,
}

pub data Tracing : Type 0 where
  cache_hit answered not_found error : Tracing

-- One entry of the transport trace. The elapsed time is the clock's and is not modelled.
pub record Entry (P K : Type 0) : Type 0 where
  pub transport : Text
  pub target : Text
  pub outcome : Tracing
  -- the kwargs as they were given, where there are any
  pub kwargs : Option K
  pub error : Option Text
  -- the payload of a debug run; the inner none is the answer None
  pub payload : Option (Option P)

-- The cache key (label, path, canonical_kwargs(kwargs)).
pub record Key (K : Type 0) : Type 0 where
  pub label : Text
  pub path : Text
  pub kwargs : K

-- One transport slot: the client's label, the spelling of a path that the trace shows, and the answers
-- of the client, which may depend on how often it was asked. `kwargs_eq` compares canonical kwargs;
-- `has_kwargs` is whether any are given.
pub record Client (P K : Type 0) : Type 0 where
  pub transport_label : Text
  pub public_path : Text → Text
  pub kwargs_eq : K → K → Bool
  pub has_kwargs : K → Bool
  pub fetch : ℕ → Text → K → Answer (Option P)

pub record State (P K : Type 0) : Type 0 where
  pub debug : Bool
  pub trace : List (Entry P K)
  pub cache : List (Key K × Option P)
  -- how often the client was asked
  pub asked : ℕ

pub data Result (P : Type 0) : Type 0 where
  returns : Option P → Result P
  throws : Failure → Result P

abbrev pub Redactor : Type 0 → Type 0
Redactor P = Option (P → Answer P)

unfoldable pub key_eq : {K : Type 0} → (K → K → Bool) → Key K → Key K → Bool
key_eq eq a b = text_eq a.label b.label && text_eq a.path b.path && eq a.kwargs b.kwargs

-- "%s: %s" % (type(exc).__name__, exc)
unfoldable pub raised_text : Text → Text → Text
raised_text name message = name ++ codes ": " ++ message

-- "answer withheld: its redactor failed with %s" % (failure,)
unfoldable pub withheld_text : Text → Text
withheld_text name = codes "answer withheld: its redactor failed with " ++ name

-- A cache hit: the cached answer, once more through the caller's redactor.
unfoldable pub from_cache : {P : Type 0} → Redactor P → Option P → Result P
from_cache redact none = returns none
from_cache none (some p) = returns (some p)
from_cache (some redact) (some p) = elim (redact_payload redact p) [
  | clean q ↦ returns (some q)
  | failure name ↦ throws (withheld name)
  | interrupted ↦ throws time_limit
]

module _ {P K : Type 0} where
  -- self._cache.get(key)
  unfoldable pub find_cached : (K → K → Bool) → Key K → List (Key K × Option P) → Option (Option P)
  find_cached eq key [] = none
  find_cached eq key ((k, answer) ∷ rest) =
      let later = find_cached eq key rest in if key_eq eq k key then some answer else later

  -- self.trace.append(entry)
  unfoldable pub traced : Entry P K → State P K → State P K
  traced entry s = record s { trace = entry ∷ s.trace }

  -- The entry of a cache hit.
  unfoldable pub hit_entry : Client P K → Text → Entry P K
  hit_entry client path = record {
    transport = client.transport_label;
    target = client.public_path path;
    outcome = cache_hit;
    kwargs = none;
    error = none;
    payload = none;
  }

  -- The entry of a read that asked the client.
  unfoldable pub entry_for : Client P K → Key K → Tracing → Option Text → Entry P K
  entry_for client key outcome problem = record {
    transport = client.transport_label;
    target = client.public_path key.path;
    outcome = outcome;
    kwargs = if client.has_kwargs key.kwargs then some key.kwargs else none;
    error = problem;
    payload = none;
  }

  -- The end of a read that may be stored: trace, cache, return.
  unfoldable pub store : Client P K → Key K → Option P → State P K → Result P × State P K
  store client key payload s = (
    returns payload,
    record s {
      trace =
          record (entry_for client key (elim payload [ none ↦ not_found | some p ↦ answered ])
            none) { payload = if s.debug then some payload else none }
          ∷ s.trace;
      cache = (key, payload) ∷ s.cache;
    },
  )

  -- The answer of the client, through the redactor.
  unfoldable pub accept :
      Client P K → Redactor P → Key K → Option P → State P K → Result P × State P K
  accept client redact key none s = store client key none s
  accept client none key (some p) s = store client key (some p) s
  accept client (some redact) key (some p) s = elim (redact_payload redact p) [
    | clean q ↦ store client key (some q) s
    | failure name ↦
        (throws (withheld name), traced (entry_for client key error (some (withheld_text name))) s)
    | interrupted ↦ (throws time_limit, s)
  ]

  unfoldable pub fetch_answer : Client P K → Redactor P → Key K → State P K → Result P × State P K
  fetch_answer client redact key s =
      let s' : State P K = record s { asked = s.asked + 1 } in
      elim (client.fetch s.asked key.path key.kwargs) [
        | gives payload ↦ accept client redact key payload s'
        | raises name message ↦ (
          throws (passed_on name message),
          traced (entry_for client key error (some (raised_text name message))) s',
        )
      ]

  -- The read of one slot; none is a slot without a client.
  unfoldable pub read :
      Option (Client P K) → Redactor P → Text → K → State P K → Result P × State P K
  read none redact path kwargs s = (throws no_transport, s)
  read (some client) redact path kwargs s =
      let key : Key K = record { label = client.transport_label; path = path; kwargs = kwargs } in
      elim (find_cached client.kwargs_eq key s.cache) [
        | none ↦ fetch_answer client redact key s
        | some cached ↦ (from_cache redact cached, traced (hit_entry client path) s)
      ]
