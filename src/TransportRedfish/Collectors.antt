-- ===== src/TransportRedfish/Collectors.antt =====
-- What a collector does with a RedfishClient (jobs/transport_redfish.py): its calls one after another,
-- each chosen by the results of the earlier ones, with `with client.budget(...)` blocks.
use nautobot_testsuite.Base.{ℕ, ◌+◌, Bool, Option, none, some, if◌then◌else◌, Text}
use nautobot_testsuite.Numeric.{Numeric}
use nautobot_testsuite.DiffCore.Values.{Value}
use nautobot_testsuite.TransportRedfish.Records.{
  RedfishError, invalid_budget, Probe, Client, Network,
}
use nautobot_testsuite.TransportRedfish.Client.{Fetched, get, is_invalid, enter_budget, exit_budget}
use nautobot_testsuite.TransportRedfish.Probes.{probe_get, ping}

-- A call of the client, and what comes after its result. `budget` is a with block: its body, and what
-- comes after it or after the error of client.budget. `pause` lets time pass.
pub data Collector (N : Type 0) : Type 0 where
  finish : Collector N
  fetch : Text → Bool → (Fetched N → Collector N) → Collector N
  probe : Text → Bool → (Probe → Collector N) → Collector N
  ask : (Bool → Collector N) → Collector N
  pause : ℕ → Collector N → Collector N
  budget : Text → ℕ → Collector N → (Option RedfishError → Collector N) → Collector N

module _ (n : Numeric) (str : Value n.Number → Text) (repr : Text → Text)
    (net : Network n.Number) where
  open n use {Number}

  unfoldable pub run_collector : Collector Number → Client → Client
  run_collector finish c = c
  run_collector (fetch path ok_404 next) c =
      let (result, after) = get net path ok_404 c in run_collector (next result) after
  run_collector (probe path anonymous next) c =
      let (result, after) = probe_get n str repr net path anonymous c in
      run_collector (next result) after
  run_collector (ask next) c =
      let (result, after) = ping n str repr net c in run_collector (next result) after
  run_collector (pause ticks next) c = run_collector next (record c { clock = c.clock + ticks })
  run_collector (budget label max_gets body next) c =
      let behind = exit_budget (run_collector body (enter_budget label max_gets c)) in
      let done = run_collector (next none) behind in
      let refused = run_collector (next (some (invalid_budget label max_gets))) c in
      if is_invalid max_gets then refused else done
