-- ===== src/TransportRedfish/Footprint.antt =====
-- What a capture sends to a BMC (jobs/transport_redfish.py): only paths of the read-only surface, and
-- never two GETs closer than the interval.
use nautobot_testsuite.Base.{
  ℕ, ◌+◌, ◌≡◌, refl, Bool, true, false, not, ◌&&◌, Option, none, some, List, [], ◌∷◌, ◌++◌, Text,
  Bool-cases, inl, inr, codes,
}
use nautobot_testsuite.Numeric.{Numeric}
use nautobot_testsuite.DiffCore.Values.{Value}
use nautobot_testsuite.RedfishPaths.Fence.{Fenced, send, refused, fence_path}
use nautobot_testsuite.RedfishPaths.Wire.{IsReadOnly, fence_path-IsReadOnly}
use nautobot_testsuite.TransportRedfish.Records.{
  Request, GetBudget, Client, Network, TlsMode, default_tls, legacy_tls, invalid_budget, Probe,
}
use nautobot_testsuite.TransportRedfish.Client.{
  charged, ready_at, pace, transmit, send_fenced, send_get, get, enter_budget, exit_budget,
  is_invalid, send_charged, outer, Fetched,
}
use nautobot_testsuite.TransportRedfish.Probes.{
  probe_get, noting, probe_all, ping, retries, enable_legacy_tls, is_success, after_root,
  after_systems, retried, is_tls_failure,
}
use nautobot_testsuite.TransportRedfish.Collectors.{
  Collector, finish, fetch, probe, ask, pause, budget, run_collector,
}

-- A client before its first GET.
abbrev pub new_client : Bool → ℕ → Client
new_client verify now = record {
  verify = verify;
  tls_mode = default_tls;
  gets = 0;
  last_request = none;
  budgets = [];
  last_probe = none;
  clock = now;
  sent = [];
  followed = [];
}

-- No budget inside.
abbrev pub IsFlat : {N : Type 0} → Collector N → Type 0
IsFlat finish = Unit {0}
IsFlat {N} (fetch path ok_404 next) = (r : Fetched N) → IsFlat (next r)
IsFlat (probe path anonymous next) = (r : Probe) → IsFlat (next r)
IsFlat (ask next) = (ok : Bool) → IsFlat (next ok)
IsFlat (pause ticks next) = IsFlat next
IsFlat (budget label max_gets body next) = ⊥

-- A predicate of what was sent that every single GET keeps holds after whole collectors.
module _ (n : Numeric) (str : Value n.Number → Text) (repr : Text → Text) (net : Network n.Number)
    (I : Bool → TlsMode → List GetBudget → ℕ → Option ℕ → List Request → List Text → Type 0)
    (step : (r : Request) (verify : Bool) (b b' : List GetBudget) (gets now : ℕ) (last : Option ℕ)
        (sent : List Request) (followed : List Text)
      → charged b ≡ some b'
      → IsReadOnly r.path
      → r.sent_at ≡ ready_at net last now
      → I verify r.tls b gets last sent followed
      → I verify r.tls b' (gets + 1) (some r.sent_at) (r ∷ sent) (net.redirects sent r ++ followed))
    (legacy : (b : List GetBudget) (gets : ℕ) (last : Option ℕ) (sent : List Request)
        (followed : List Text)
      → I false default_tls b gets last sent followed
      → I false legacy_tls b gets last sent followed) where
  open n use {Number}

  abbrev pub Holds : Client → Type 0
  Holds c = I c.verify c.tls_mode c.budgets c.gets c.last_request c.sent c.followed

  send_charged-Holds :
      (wire : Text) (anonymous : Bool) (c : Client) (b : Option (List GetBudget))
      → charged c.budgets ≡ b
      → IsReadOnly wire
      → Holds c
      → Holds (send_charged net wire anonymous c b).1
  unfolding send_charged pace transmit
  send_charged-Holds wire anonymous c none e safe h = h
  send_charged-Holds wire anonymous c (some b) e safe h =
      step _ c.verify c.budgets b c.gets c.clock c.last_request c.sent c.followed e safe refl h

  send_fenced-Holds :
      (path : Text) (anonymous : Bool) (c : Client) (f : Fenced)
      → fence_path path ≡ f
      → Holds c
      → Holds (send_fenced net path anonymous c f).1
  unfolding send_fenced
  send_fenced-Holds path anonymous c (refused reason) e h = h
  send_fenced-Holds path anonymous c (send wire) e h =
      send_charged-Holds wire anonymous c (charged c.budgets) refl
        (fence_path-IsReadOnly path wire e) h

  send_get-Holds :
      (path : Text) (anonymous : Bool) (c : Client)
      → Holds c
      → Holds (send_get net path anonymous c).1
  unfolding send_get
  send_get-Holds path anonymous c h = send_fenced-Holds path anonymous c (fence_path path) refl h

  probe_get-Holds :
      (path : Text) (anonymous : Bool) (c : Client)
      → Holds c
      → Holds (noting n str repr net (probe_get n str repr net path anonymous c)).1
  unfolding probe_get noting
  probe_get-Holds path anonymous c h = send_get-Holds path anonymous c h

  after_root-Holds :
      (path : Text) (r : Probe × Client) → Holds r.1 → Holds (after_root n str repr net path r).2
  unfolding after_root after_systems
  after_root-Holds path (root, c) h = elim (Bool-cases (is_success root.status)) [
    | inl e ↦ rw e (probe_get-Holds path false c h)
    | inr e ↦ rw e h
  ]

  probe_all-Holds : (c : Client) → Holds c → Holds (probe_all n str repr net c).2
  unfolding probe_all
  probe_all-Holds c h =
      after_root-Holds (codes "/redfish/v1/Systems") _
        (probe_get-Holds (codes "/redfish/v1/") true c h)

  enable_legacy_tls-Holds :
      (c : Client) (probed : Probe)
      → retries n str repr net c probed ≡ true
      → Holds c
      → Holds (enable_legacy_tls n str repr net c)
  unfolding retries enable_legacy_tls
  enable_legacy_tls-Holds c probed e h = by_mode c.verify c.tls_mode (is_tls_failure probed) e h
    where
      by_mode :
          (verify : Bool) (tls : TlsMode) (fails : Bool)
          → (not verify && (elim tls [ default_tls ↦ true | legacy_tls ↦ false ]) && fails) ≡ true
          → I verify tls c.budgets c.gets c.last_request c.sent c.followed
          → I verify legacy_tls c.budgets c.gets c.last_request c.sent c.followed
      by_mode true tls fails e h = absurd cc
      by_mode false default_tls fails e h = legacy _ _ _ _ _ h
      by_mode false legacy_tls fails e h = h

  retried-Holds : (r : Bool × Probe × Client) → Holds r.2 → Holds (retried n str repr net r).1
  unfolding retried enable_legacy_tls
  retried-Holds (true, record', c) h = h
  retried-Holds (false, record', c) h = elim (Bool-cases (retries n str repr net c record')) [
    | inl e ↦ rw e (
        probe_all-Holds (enable_legacy_tls n str repr net c)
          (enable_legacy_tls-Holds c record' e h))
    | inr e ↦ rw e h
  ]

  ping-Holds : (c : Client) → Holds c → Holds (ping n str repr net c).1
  unfolding ping
  ping-Holds c h = retried-Holds (probe_all n str repr net c) (probe_all-Holds c h)

  get-Holds : (path : Text) (ok_404 : Bool) (c : Client) → Holds c → Holds (get net path ok_404 c).1
  unfolding get
  get-Holds path ok_404 c h = send_get-Holds path false c h

  bare_probe-Holds :
      (path : Text) (anonymous : Bool) (c : Client)
      → Holds c
      → Holds (probe_get n str repr net path anonymous c).1
  unfolding probe_get
  bare_probe-Holds path anonymous c h = send_get-Holds path anonymous c h

  -- Calls alone, with no budget of their own, keep the predicate.
  pub run_flat-Holds :
      (col : Collector Number) (c : Client)
      → IsFlat col
      → Holds c
      → Holds (run_collector n str repr net col c)
  unfolding run_collector
  run_flat-Holds finish c f h = h
  run_flat-Holds (fetch path ok_404 next) c f h =
      let r = get net path ok_404 c in
      run_flat-Holds (next r.0) r.1 (f r.0) (get-Holds path ok_404 c h)
  run_flat-Holds (probe path anonymous next) c f h =
      let r = probe_get n str repr net path anonymous c in
      run_flat-Holds (next r.0) r.1 (f r.0) (bare_probe-Holds path anonymous c h)
  run_flat-Holds (ask next) c f h =
      let r = ping n str repr net c in run_flat-Holds (next r.0) r.1 (f r.0) (ping-Holds c h)
  run_flat-Holds (pause ticks next) c f h = run_flat-Holds next _ f h
  run_flat-Holds (budget label max_gets body next) c f h = absurd f

  module _
      (enter : (verify : Bool) (tls : TlsMode) (b : GetBudget) (bs : List GetBudget) (gets : ℕ)
          (last : Option ℕ) (sent : List Request) (followed : List Text)
        → I verify tls bs gets last sent followed
        → I verify tls (b ∷ bs) gets last sent followed)
      (leave : (verify : Bool) (tls : TlsMode) (bs : List GetBudget) (gets : ℕ) (last : Option ℕ)
          (sent : List Request) (followed : List Text)
        → I verify tls bs gets last sent followed
        → I verify tls (outer bs) gets last sent followed) where
    pub run_collector-Holds :
        (col : Collector Number) (c : Client) → Holds c → Holds (run_collector n str repr net col c)
    unfolding run_collector enter_budget exit_budget
    run_collector-Holds finish c h = h
    run_collector-Holds (fetch path ok_404 next) c h =
        run_collector-Holds (next (get net path ok_404 c).0) (get net path ok_404 c).1
          (get-Holds path ok_404 c h)
    run_collector-Holds (probe path anonymous next) c h =
        let r = probe_get n str repr net path anonymous c in
        run_collector-Holds (next r.0) r.1 (bare_probe-Holds path anonymous c h)
    run_collector-Holds (ask next) c h =
        let r = ping n str repr net c in run_collector-Holds (next r.0) r.1 (ping-Holds c h)
    run_collector-Holds (pause ticks next) c h = run_collector-Holds next _ h
    run_collector-Holds (budget label max_gets body next) c h =
        elim (Bool-cases (is_invalid max_gets)) [
          | inl e ↦ rw e (run_collector-Holds (next (some (invalid_budget label max_gets))) c h)
          | inr e ↦ rw e (
              run_collector-Holds (next none) _ (
                leave _ _ _ _ _ _ _ (
                  run_collector-Holds body (enter_budget label max_gets c)
                    (enter _ _ _ _ _ _ _ _ h))))
        ]
