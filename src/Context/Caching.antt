-- ===== src/Context/Caching.antt =====
-- The per-run cache of a context (jobs/context.py): one fetch serves every later read of its key.
use nautobot_testsuite.Base.{
  ◌+◌, ◌≡◌, refl, true, Option, none, some, ◌∷◌, arith, Text, text_eq_refl, subst,
}
use nautobot_testsuite.Context.Redaction.{
  Answer, gives, raises, passed_on, withheld, time_limit, Redacted, clean, failure, interrupted,
  redact_payload,
}
use nautobot_testsuite.Context.Reads.{
  error, Key, Client, State, Result, returns, throws, Redactor, key_eq, find_cached, traced,
  hit_entry, entry_for, raised_text, withheld_text, from_cache, store, accept, fetch_answer, read,
}

-- Redacting again changes nothing: what jobs/context.py asks of a redactor.
abbrev pub IsIdempotent : {P : Type 0} → Redactor P → Type 0
IsIdempotent none = Unit {0}
IsIdempotent {P} (some redact) = (p q : P) → redact p ≡ gives q → redact q ≡ gives q

redact_payload-clean :
    {P : Type 0} (f : P → Answer P) (p q : P) → redact_payload f p ≡ clean q → f p ≡ gives q
unfolding redact_payload
redact_payload-clean f p q h = ground arith

from_cache-clean :
    {P : Type 0} (f : P → Answer P) (p q : P)
    → ((p q : P) → f p ≡ gives q → f q ≡ gives q)
    → redact_payload f p ≡ clean q
    → from_cache (some f) (some q) ≡ returns (some q)
unfolding from_cache redact_payload
from_cache-clean f p q idem h = ground (arith, idem p q (redact_payload-clean f p q h))

module _ {P K : Type 0} (client : Client P K) (path : Text) (kwargs : K)
    (same : client.kwargs_eq kwargs kwargs ≡ true) where
  abbrev the_key : Key K
  the_key = record { label = client.transport_label; path = path; kwargs = kwargs }

  key_eq_refl : key_eq client.kwargs_eq the_key the_key ≡ true
  unfolding key_eq
  key_eq_refl = ground (arith, text_eq_refl client.transport_label, text_eq_refl path)

  -- The state answers the next read of the key with `answer`.
  abbrev Ready : Redactor P → Option P → State P K → Type 0
  Ready redact answer s =
      (c : Option P) × (find_cached client.kwargs_eq the_key s.cache ≡ some c)
      × (from_cache redact c ≡ returns answer)

  -- If a read returned, the state is ready to return the same.
  abbrev ReadyIf : Redactor P → Result P × State P K → Type 0
  ReadyIf redact (returns answer, s) = Ready redact answer s
  ReadyIf redact (throws f, s) = Unit {0}

  store_ready :
      (redact : Redactor P) (payload : Option P) (s : State P K)
      → from_cache redact payload ≡ returns payload
      → ReadyIf redact (store client the_key payload s)
  unfolding store find_cached
  store_ready redact payload s h = (payload, rw key_eq_refl refl, h)

  accept_ready :
      (redact : Redactor P) (payload : Option P) (s : State P K)
      → IsIdempotent redact
      → ReadyIf redact (accept client redact the_key payload s)
  unfolding accept
  accept_ready none none s idem = store_ready none none s (unfold from_cache in refl)
  accept_ready (some f) none s idem = store_ready (some f) none s (unfold from_cache in refl)
  accept_ready none (some p) s idem = store_ready none (some p) s (unfold from_cache in refl)
  accept_ready (some f) (some p) s idem = by_redacted (redact_payload f p) refl
    where
      by_redacted :
          (r : Redacted P)
          → redact_payload f p ≡ r
          → ReadyIf (some f) (elim r [
            | clean q ↦ store client the_key (some q) s
            | failure name ↦ (
              throws (withheld name),
              traced (entry_for client the_key error (some (withheld_text name))) s,
            )
            | interrupted ↦ (throws time_limit, s)
          ])
      by_redacted (clean q) e = store_ready (some f) (some q) s (from_cache-clean f p q idem e)
      by_redacted (failure name) e = tt
      by_redacted interrupted e = tt

  fetch_ready :
      (redact : Redactor P) (s : State P K)
      → IsIdempotent redact
      → ReadyIf redact (fetch_answer client redact the_key s)
  unfolding fetch_answer
  fetch_ready redact s idem = by_answer (client.fetch s.asked path kwargs)
    where
      s' : State P K
      s' = record s { asked = s.asked + 1 }

      by_answer :
          (a : Answer (Option P))
          → ReadyIf redact (elim a [
            | gives payload ↦ accept client redact the_key payload s'
            | raises name message ↦ (
              throws (passed_on name message),
              traced (entry_for client the_key error (some (raised_text name message))) s',
            )
          ])
      by_answer (gives payload) = accept_ready redact payload s' idem
      by_answer (raises name message) = tt

  cached_ready :
      (redact : Redactor P) (c : Option P) (s : State P K)
      → find_cached client.kwargs_eq the_key s.cache ≡ some c
      → ReadyIf redact (from_cache redact c, traced (hit_entry client path) s)
  unfolding traced
  cached_ready redact c s e = by_result (from_cache redact c) refl
    where
      by_result :
          (r : Result P)
          → from_cache redact c ≡ r
          → ReadyIf redact (r, record s { trace = hit_entry client path ∷ s.trace })
      by_result (returns a) h = (c, e, h)
      by_result (throws f) h = tt

  read_ready :
      (redact : Redactor P) (s : State P K)
      → IsIdempotent redact
      → ReadyIf redact (read (some client) redact path kwargs s)
  unfolding read
  read_ready redact s idem = by_cache (find_cached client.kwargs_eq the_key s.cache) refl
    where
      by_cache :
          (found : Option (Option P))
          → find_cached client.kwargs_eq the_key s.cache ≡ found
          → ReadyIf redact (elim found [
            | none ↦ fetch_answer client redact the_key s
            | some cached ↦ (from_cache redact cached, traced (hit_entry client path) s)
          ])
      by_cache none e = fetch_ready redact s idem
      by_cache (some c) e = cached_ready redact c s e

  read_again :
      (redact : Redactor P) (answer : Option P) (s : State P K)
      → Ready redact answer s
      → ((read (some client) redact path kwargs s).0 ≡ returns answer)
        × ((read (some client) redact path kwargs s).1.asked ≡ s.asked)
        × ((read (some client) redact path kwargs s).1.cache ≡ s.cache)
  unfolding read traced
  read_again redact answer s (c, found, h) = ground arith

  -- After a read that returned an answer, the same read with the same redactor, if that is
  -- idempotent, returns the same answer, asks the device nothing and leaves the cache as it is.
  pub read-read :
      (redact : Redactor P) (answer : Option P) (s t : State P K)
      → IsIdempotent redact
      → read (some client) redact path kwargs s ≡ (returns answer, t)
      → ((read (some client) redact path kwargs t).0 ≡ returns answer)
        × ((read (some client) redact path kwargs t).1.asked ≡ t.asked)
        × ((read (some client) redact path kwargs t).1.cache ≡ t.cache)
  read-read redact answer s t idem e =
      read_again redact answer t (subst (ReadyIf redact) e (read_ready redact s idem))
