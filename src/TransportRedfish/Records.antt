-- ===== src/TransportRedfish/Records.antt =====
-- The responses, errors and state of RedfishClient (jobs/transport_redfish.py) and its messages. The
-- HTTP library, the clock and Python's repr are parameters.
use nautobot_testsuite.Base.{
  ℕ, ◌+◌, Bool, Option, none, some, List, ◌++◌, Text, codes, digits, ◌≤◌, length,
}
use nautobot_testsuite.DiffCore.Values.{Value}
use nautobot_testsuite.RedfishPaths.Fence.{
  Reason, empty_path, control_character, outside_root, percent_encoding, outside_grammar,
  dot_segment, banned_segment, empty_segment, query_not_allowlisted, unreadable_value,
}

-- What the code reads of a requests.Response; `body` is resp.json(), none where it raises ValueError,
-- `size` is len(resp.content) and `elapsed_ms` the elapsed time.
pub record Response (N : Type 0) : Type 0 where
  pub status_code : ℕ
  pub is_ok : Bool
  pub size : ℕ
  pub body : Option (Value N)
  pub elapsed_ms : ℕ

-- session.get: a response, or a requests.RequestException with its text
pub data Answer (N : Type 0) : Type 0 where
  response : Response N → Answer N
  request_exception : Text → Answer N

-- The RedfishErrors, with what their messages show.
pub data RedfishError : Type 0 where
  fence_refusal : Text → Reason → RedfishError
  budget_exhausted : Text → ℕ → Text → RedfishError
  invalid_budget : Text → ℕ → RedfishError
  get_failed : Text → Text → RedfishError
  not_found : Text → RedfishError
  http_status : Text → ℕ → RedfishError
  non_json_body : Text → ℕ → ℕ → RedfishError

-- error.status_code
unfoldable pub status_of : RedfishError → Option ℕ
status_of (not_found path) = some 404
status_of (http_status path status) = some status
status_of (non_json_body path size status) = some status
status_of _ = none

module _ (repr : Text → Text) where
  -- The reasons of path_refusal.
  unfoldable pub reason_text : Reason → Text
  reason_text empty_path = codes "empty path"
  reason_text control_character = codes "whitespace or control character in path"
  reason_text outside_root = codes "path must start with /redfish/v1/"
  reason_text percent_encoding = codes "percent-encoding in path"
  reason_text outside_grammar =
      codes "path contains characters outside the Redfish resource grammar"
  reason_text dot_segment = codes "dot-segment in path"
  reason_text (banned_segment segment) =
      repr segment ++ codes " segment is outside the read-only surface"
  reason_text empty_segment = codes "empty segment in path"
  reason_text (query_not_allowlisted name) =
      codes "query parameter "
      ++ repr name
      ++ codes " is not allowlisted ($expand/$select/$skip/$skiptoken only)"
  reason_text (unreadable_value name) =
      codes "query parameter " ++ repr name ++ codes " has an unreadable value"

  -- str(error)
  unfoldable pub error_text : RedfishError → Text
  unfolding reason_text digits
  error_text (fence_refusal path reason) =
      codes "GET "
      ++ path
      ++ codes ": refused by the path fence: "
      ++ repr path
      ++ codes " refused: "
      ++ reason_text reason
  error_text (budget_exhausted label max_gets path) =
      label
      ++ codes ": GET budget of "
      ++ digits max_gets
      ++ codes " exhausted before "
      ++ path
      ++ codes
          " — the collector would be silently partial; narrow it with $expand/$select or raise the budget"
  error_text (invalid_budget label max_gets) =
      label ++ codes ": budget must be 1..40 GETs, got " ++ digits max_gets
  error_text (get_failed path why) = codes "GET " ++ path ++ codes ": " ++ why
  error_text (not_found path) = codes "GET " ++ path ++ codes ": 404 not found"
  error_text (http_status path status) = codes "GET " ++ path ++ codes ": HTTP " ++ digits status
  error_text (non_json_body path size status) =
      codes "GET " ++ path ++ codes ": 2xx with non-JSON body (" ++ digits size ++ codes " bytes)"

pub data TlsMode : Type 0 where
  default_tls legacy_tls : TlsMode

-- A GET that _send forms: the path, whether it goes without credentials, the TLS mode, and when it is sent.
pub record Request : Type 0 where
  pub path : Text
  pub is_anonymous : Bool
  pub tls : TlsMode
  pub sent_at : ℕ

-- _GetBudget
pub record GetBudget : Type 0 where
  pub label : Text
  pub max_gets : ℕ
  pub used : ℕ

-- The record of probe_get.
pub record Probe : Type 0 where
  pub path : Text
  pub status : Option ℕ
  pub elapsed_ms : Option ℕ
  pub content_bytes : ℕ
  pub error : Option Text
  pub message_id : Option Text
  pub message : Option Text

-- A RedfishClient and what is around it: `budgets` is _budget, the innermost first (each _GetBudget
-- keeps the outer one in _outer); `clock` is time.monotonic() in ticks; `sent` has the GETs that _send
-- formed so far, the last one first, and `followed` the URLs that the HTTP library fetched besides,
-- because answers redirected it there.
pub record Client : Type 0 where
  pub verify : Bool
  pub tls_mode : TlsMode
  pub gets : ℕ
  pub last_request : Option ℕ
  pub budgets : List GetBudget
  pub last_probe : Option Probe
  pub clock : ℕ
  pub sent : List Request
  pub followed : List Text

-- The HTTP library and the clock: the answer that session.get ends with and how long it takes, which
-- may depend on all that was sent before; the URLs of the redirects that it follows on the way, the
-- last one first, each a GET of its own (session.get follows redirects unless it is told not to, and
-- _send does not tell it); when time.sleep returns; and the ticks of REDFISH_MIN_INTERVAL.
pub record Network (N : Type 0) : Type 0 where
  pub answer : List Request → Request → Answer N
  pub redirects : List Request → Request → List Text
  pub takes : List Request → Request → ℕ
  pub wakes : ℕ → ℕ → ℕ
  pub min_interval : ℕ

-- The documentation of session.get: it follows at most max_redirects redirects (30 unless it is set).
abbrev pub FollowsAtMost : {N : Type 0} → ℕ → Network N → Type 0
FollowsAtMost limit net =
    (sent : List Request) (r : Request) → length (net.redirects sent r) ≤ limit

-- The documentation of time.sleep: it suspends for at least the time asked for.
abbrev pub Sleeps : {N : Type 0} → Network N → Type 0
Sleeps net = (now wait : ℕ) → now + wait ≤ net.wakes now wait
