-- ===== src/TransportRedfish/Client.antt =====
-- The requests of RedfishClient (jobs/transport_redfish.py): budget, pace, send and get, as functions on
-- the state of the client and what is around it.
use nautobot_testsuite.Base.{
  ℕ, ◌+◌, ◌-◌, Bool, false, ◌||◌, not, Option, none, some, List, [], ◌∷◌, ◌++◌, ltb, leb, ◌==◌,
  if◌then◌else◌, Text,
}
use nautobot_testsuite.DiffCore.Values.{Value, obj, end}
use nautobot_testsuite.RedfishPaths.Fence.{Fenced, send, refused, fence_path}
use nautobot_testsuite.TransportRedfish.Records.{
  Response, Answer, response, request_exception, RedfishError, fence_refusal, budget_exhausted,
  get_failed, not_found, http_status, non_json_body, Request, GetBudget, Client, Network,
}

-- What _send does: it has an answer or a RequestException, or it raises a RedfishError.
pub data Sending (N : Type 0) : Type 0 where
  answered : Answer N → Sending N
  not_sent : RedfishError → Sending N

-- What get does: it returns a value or None, or it raises.
pub data Fetched (N : Type 0) : Type 0 where
  returned : Value N → Fetched N
  absent : Fetched N
  raised : RedfishError → Fetched N

-- max_gets < 1 or max_gets > C.REDFISH_MAX_CHECK_BUDGET
unfoldable pub is_invalid : ℕ → Bool
is_invalid max_gets = ltb max_gets 1 || ltb 40 max_gets

-- _GetBudget.__enter__
unfoldable pub enter_budget : Text → ℕ → Client → Client
enter_budget label max_gets c = record c {
  budgets = record { label = label; max_gets = max_gets; used = 0 } ∷ c.budgets;
}

unfoldable pub outer : List GetBudget → List GetBudget
outer [] = []
outer (b ∷ budgets) = budgets

-- _GetBudget.__exit__
unfoldable pub exit_budget : Client → Client
unfolding outer
exit_budget c = record c { budgets = outer c.budgets }

-- _GetBudget.charge on the innermost budget: the budgets afterwards, or the error.
unfoldable pub charged : List GetBudget → Option (List GetBudget)
charged [] = some []
charged (b ∷ budgets) =
    if leb b.max_gets b.used then none else some (record b { used = b.used + 1 } ∷ budgets)

unfoldable pub exhausted : List GetBudget → Text → RedfishError
exhausted [] path = budget_exhausted [] 0 path
exhausted (b ∷ budgets) path = budget_exhausted b.label b.max_gets path

module _ {N : Type 0} (net : Network N) where
  -- When the GET may go.
  unfoldable pub ready_at : Option ℕ → ℕ → ℕ
  ready_at none now = now
  ready_at (some last) now =
      if leb (last + net.min_interval) now
      then now
      else net.wakes now (last + net.min_interval - now)

  -- _pace
  unfoldable pub pace : Client → Client
  unfolding ready_at
  pace c =
      let now = ready_at c.last_request c.clock in record c { clock = now; last_request = some now }

  -- The end of _send: the request, the redirects that are followed from it, and the answer.
  unfoldable pub transmit : Text → Bool → Client → Answer N × Client
  transmit path anonymous c =
      let request : Request = record {
        path = path;
        is_anonymous = anonymous;
        tls = c.tls_mode;
        sent_at = c.clock;
      } in
      (
        net.answer c.sent request,
        record c {
          gets = c.gets + 1;
          clock = c.clock + net.takes c.sent request;
          sent = request ∷ c.sent;
          followed = net.redirects c.sent request ++ c.followed;
        },
      )

  -- _send from the budget on; the budgets are those that charge leaves.
  unfoldable pub send_charged : Text → Bool → Client → Option (List GetBudget) → Sending N × Client
  unfolding exhausted pace transmit
  send_charged wire anonymous c none = (not_sent (exhausted c.budgets wire), c)
  send_charged wire anonymous c (some budgets) =
      let (answer, after) = transmit wire anonymous (pace (record c { budgets = budgets })) in
      (answered answer, after)

  unfoldable pub send_fenced : Text → Bool → Client → Fenced → Sending N × Client
  unfolding charged send_charged
  send_fenced path anonymous c (refused reason) = (not_sent (fence_refusal path reason), c)
  send_fenced path anonymous c (send wire) = send_charged wire anonymous c (charged c.budgets)

  -- _send
  unfoldable pub send_get : Text → Bool → Client → Sending N × Client
  unfolding fence_path send_fenced
  send_get path anonymous c = send_fenced path anonymous c (fence_path path)

  -- What get makes of a response.
  unfoldable pub read_response : Text → Bool → Response N → Fetched N
  read_response path ok_404 r =
      if r.status_code == 404
      then if ok_404 then absent else raised (not_found path)
      else if not r.is_ok
      then raised (http_status path r.status_code)
      else if r.status_code == 204 || r.size == 0
      then returned (obj end)
      else elim r.body [
        | none ↦ raised (non_json_body path r.size r.status_code)
        | some value ↦ returned value
      ]

  unfoldable pub read_answer : Text → Bool → Sending N → Fetched N
  unfolding read_response
  read_answer path ok_404 (not_sent e) = raised e
  read_answer path ok_404 (answered (request_exception why)) = raised (get_failed path why)
  read_answer path ok_404 (answered (response r)) = read_response path ok_404 r

  -- get
  unfoldable pub get : Text → Bool → Client → Fetched N × Client
  unfolding send_get read_answer
  get path ok_404 c =
      let (sending, after) = send_get path false c in (read_answer path ok_404 sending, after)
