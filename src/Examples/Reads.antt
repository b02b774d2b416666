-- ===== src/Examples/Reads.antt =====
-- Concrete reads of a context and a guard (jobs/context.py).
use nautobot_testsuite.Base.{
  ℕ, ◌<◌, ◌≡◌, refl, Bool, true, false, not, Option, none, some, List, [], ◌∷◌, ◌==◌, arith, Text,
  codes, contains,
}
use nautobot_testsuite.Context.Redaction.{Answer, gives, raises}
use nautobot_testsuite.Context.Reads.{
  Client, State, Result, returns, read, fetch_answer, find_cached, accept, store, entry_for,
  raised_text,
}
use nautobot_testsuite.Context.Caching.{read-read}
use nautobot_testsuite.Context.EchoGuard.{Guard, hold, new_guard, Trace}
use nautobot_testsuite.Context.Quieting.{Quiet, guard_correct}

-- Reads of a context: payloads are texts, the redactor blanks them.
abbrev blanking : Text → Answer Text
blanking p = gives []

abbrev small_client : Client Text ℕ
small_client = record {
  transport_label = codes "restconf";
  public_path = λ path. path;
  kwargs_eq = λ a b. a == b;
  has_kwargs = λ a. not (a == 0);
  fetch = λ asked path kwargs. gives (some (codes "secret"));
}

abbrev new_state : State Text ℕ
new_state = record { debug = true; trace = []; cache = []; asked = 0 }

abbrev IsBlank : Text → Type 0
IsBlank p = p ≡ []

abbrev blank_answer : (p q : Text) → blanking p ≡ gives q → IsBlank q
blank_answer p q e = ground arith

-- A transport that fails once before it answers.
abbrev IsTimeout : Text → Type 0
IsTimeout t = t ≡ raised_text (codes "Timeout") (codes "slow")

abbrev first_answer : Bool → Answer (Option Text)
first_answer true = raises (codes "Timeout") (codes "slow")
first_answer false = gives (some (codes "secret"))

abbrev shaky_client : Client Text ℕ
shaky_client = record small_client { fetch = λ asked path kwargs. first_answer (asked == 0) }

abbrev words_of : Answer (Option Text) → Text
words_of (gives p) = raised_text (codes "Timeout") (codes "slow")
words_of (raises name message) = raised_text name message

abbrev read_once : Result Text × State Text ℕ
read_once = read (some small_client) none (codes "p") 0 new_state

read-read_example :
    let t = read_once.1 in
    let again = read (some small_client) none (codes "p") 0 t in
    (again.0 ≡ returns (some (codes "secret")))
    × (again.1.asked ≡ t.asked)
    × (again.1.cache ≡ t.cache)
unfolding read fetch_answer find_cached accept store entry_for
read-read_example =
    read-read small_client (codes "p") 0 refl none (some (codes "secret")) new_state read_once.1 tt
      refl

-- The guard, over one logger whose own level is DEBUG.
abbrev debug_levels : Text → ℕ
debug_levels n = 10

abbrev guarded : List Text
guarded = codes "netmiko" ∷ []

abbrev same_level : ℕ → ℕ
same_level level = level

abbrev in_flight : Guard
in_flight = hold same_level guarded (new_guard debug_levels)

guard_correct_example :
    (0 < in_flight.depth → Quiet debug_levels same_level refl guarded in_flight.levels)
    × (in_flight.depth ≡ 0 → (n : Text) → in_flight.levels n ≡ 10)
unfolding contains
guard_correct_example =
    guard_correct same_level refl guarded (refl, tt) debug_levels in_flight
      (Trace.holding Trace.start)
