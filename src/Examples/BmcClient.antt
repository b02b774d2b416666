-- ===== src/Examples/BmcClient.antt =====
-- Concrete runs of the Redfish client (jobs/transport_redfish.py).
use nautobot_testsuite.Base.{
  ℕ, ◌+◌, ◌*◌, ◌≡◌, ◌≤◌, refl, true, false, some, [], ◌∷◌, length, Text, codes, text_eq,
  if◌then◌else◌, Bool-cases, inl, inr, arith,
}
use nautobot_testsuite.DiffCore.Values.{Value, null}
use nautobot_testsuite.TransportRedfish.Records.{
  Answer, response, request_exception, TlsMode, default_tls, legacy_tls, Client, GetBudget, Network,
  RedfishError, FollowsAtMost,
}
use nautobot_testsuite.TransportRedfish.Client.{get, raised}
use nautobot_testsuite.TransportRedfish.Collectors.{
  Collector, finish, fetch, ask, budget, run_collector,
}
use nautobot_testsuite.TransportRedfish.Footprint.{new_client}
use nautobot_testsuite.TransportRedfish.Spacing.{
  AreReadOnly, AreSpaced, run_collector-AreReadOnly, run_collector-AreSpaced,
}
use nautobot_testsuite.TransportRedfish.Tls.{IsTlsKept, run_collector-IsTlsKept}
use nautobot_testsuite.TransportRedfish.Budgets.{run_collector-budget, get_exhausted}
use nautobot_testsuite.Examples.Comparisons.{naturals}

-- A BMC that answers every GET after three ticks and redirects the root once; GETs are ten ticks apart.
abbrev bmc : Network ℕ
bmc = record {
  answer = λ sent r.
      response
        (record { status_code = 200; is_ok = true; size = 2; body = some null; elapsed_ms = 3 });
  redirects =
      λ sent r. if text_eq r.path (codes "/redfish/v1") then codes "/redfish/v1/" ∷ [] else [];
  takes = λ sent r. 3;
  wakes = λ now wait. now + wait;
  min_interval = 10;
}

abbrev no_text : Value ℕ → Text
no_text v = []

abbrev quoted : Text → Text
quoted s = s

-- Three GETs and a path that the fence refuses.
abbrev walk : Collector ℕ
walk = fetch (codes "/redfish/v1/Systems") false (λ a.
    fetch (codes "/redfish/v1/Systems/1/Actions/Reset") false (λ b.
      fetch (codes "/redfish/v1/Chassis") true
        (λ c. fetch (codes "/redfish/v1") true (λ d. finish))))

-- The probes, and the walk under a budget of two GETs.
abbrev capture : Collector ℕ
capture = ask (λ ok. budget (codes "bmc_system") 2 walk (λ e. finish))

abbrev captured : Client
captured = run_collector naturals no_text quoted bmc capture (new_client false 100)

follows_one : FollowsAtMost 1 bmc
follows_one sent r = elim (Bool-cases (text_eq r.path (codes "/redfish/v1"))) [
  | inl e ↦ rw e (omega arith)
  | inr e ↦ rw e (omega arith)
]

run_collector-AreReadOnly_example :
    AreReadOnly captured.sent
    × (captured.gets ≡ length captured.sent)
    × (length captured.followed ≤ 1 * length captured.sent)
run_collector-AreReadOnly_example =
    run_collector-AreReadOnly naturals no_text quoted bmc 1 capture false 100 follows_one

run_collector-AreSpaced_example : AreSpaced 10 captured.sent
run_collector-AreSpaced_example =
    run_collector-AreSpaced naturals no_text quoted bmc capture false 100 (λ now wait. omega arith)

abbrev walked : Client
walked =
    run_collector naturals no_text quoted bmc (budget (codes "bmc_system") 2 walk (λ e. finish))
      (new_client false 100)

run_collector-budget_example :
    (length walked.sent ≤ 0 + 2)
    × (length walked.sent ≤ 0 + 40)
    × (length walked.followed ≤ 0 + 1 * 2)
    × (walked.budgets ≡ [])
run_collector-budget_example =
    run_collector-budget naturals no_text quoted bmc 1 (codes "bmc_system") 2 walk
      (new_client false 100) (λ a b c d. tt) follows_one

-- A BMC that only speaks an old TLS.
abbrev old_answer : TlsMode → Answer ℕ
old_answer default_tls = request_exception (codes "SSLError(handshake failure)")
old_answer legacy_tls =
    response
      (record { status_code = 200; is_ok = true; size = 2; body = some null; elapsed_ms = 3 })

abbrev old_bmc : Network ℕ
old_bmc = record bmc { answer = λ sent r. old_answer r.tls }

abbrev old_captured : Client
old_captured = run_collector naturals no_text quoted old_bmc capture (new_client false 100)

run_collector-IsTlsKept_example :
    (old_captured.verify ≡ false) × IsTlsKept false old_captured.tls_mode old_captured.sent
run_collector-IsTlsKept_example =
    run_collector-IsTlsKept naturals no_text quoted old_bmc capture false 100

abbrev used_up : GetBudget
used_up = record { label = codes "bmc_system"; max_gets = 2; used = 2 }

abbrev spent : Client
spent = record (new_client false 100) { budgets = used_up ∷ [] }

get_exhausted_example :
    ((e : RedfishError) × ((get bmc (codes "/redfish/v1/Systems") true spent).0 ≡ raised e))
    × ((get bmc (codes "/redfish/v1/Systems") true spent).1 ≡ spent)
get_exhausted_example =
    get_exhausted bmc (codes "/redfish/v1/Systems") true spent used_up [] refl (omega arith)
