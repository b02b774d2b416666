-- ===== src/TransportRedfish/Spacing.antt =====
-- The GETs that a capture leaves behind on a BMC (jobs/transport_redfish.py, `_send` and `_pace`).
use nautobot_testsuite.Base.{
  ℕ, ◌+◌, ◌-◌, ◌*◌, ◌≤◌, ◌≡◌, refl, subst, Bool, Option, none, some, List, [], ◌∷◌, ◌++◌, length,
  length-append, arith, leb, Text, Bool-cases, inl, inr,
}
use nautobot_testsuite.Numeric.{Numeric}
use nautobot_testsuite.DiffCore.Values.{Value}
use nautobot_testsuite.RedfishPaths.Wire.{IsReadOnly}
use nautobot_testsuite.TransportRedfish.Records.{Request, Network, FollowsAtMost, Sleeps}
use nautobot_testsuite.TransportRedfish.Client.{ready_at}
use nautobot_testsuite.TransportRedfish.Collectors.{Collector, run_collector}
use nautobot_testsuite.TransportRedfish.Footprint.{new_client, run_collector-Holds}

abbrev pub AreReadOnly : List Request → Type 0
AreReadOnly [] = Unit {0}
AreReadOnly (r ∷ sent) = IsReadOnly r.path × AreReadOnly sent

-- Each GET is sent at least the interval after the one before it; the last one stands first.
abbrev pub AreSpaced : ℕ → List Request → Type 0
AreSpaced interval [] = Unit {0}
AreSpaced interval (r ∷ []) = Unit {0}
AreSpaced interval (r ∷ q ∷ sent) =
    (q.sent_at + interval ≤ r.sent_at) × AreSpaced interval (q ∷ sent)

abbrev last_of : List Request → Option ℕ
last_of [] = none
last_of (r ∷ sent) = some r.sent_at

-- The redirects of one GET more.
pub length_followed :
    {N : Type 0} (limit : ℕ) (net : Network N) (r : Request) (sent : List Request)
    (followed : List Text)
    → FollowsAtMost limit net
    → length followed ≤ limit * length sent
    → length (net.redirects sent r ++ followed) ≤ limit * length (r ∷ sent)
length_followed limit net r sent followed few h =
    let more = few sent r in
    let both = length-append (net.redirects sent r) followed in omega (arith, more, both, h)

ready_at_lem :
    {N : Type 0} (net : Network N) (last now : ℕ)
    → Sleeps net
    → last + net.min_interval ≤ ready_at net (some last) now
unfolding ready_at
ready_at_lem net last now sleeps =
    let slept = sleeps now (last + net.min_interval - now) in
    elim (Bool-cases (leb (last + net.min_interval) now)) [
      | inl e ↦ rw e (ground (arith, e))
      | inr e ↦ rw e (ground (arith, e, slept))
    ]

AreSpaced-step :
    {N : Type 0} (net : Network N) (r : Request) (now : ℕ) (last : Option ℕ) (sent : List Request)
    → Sleeps net
    → r.sent_at ≡ ready_at net last now
    → (last ≡ last_of sent) × AreSpaced net.min_interval sent
    → AreSpaced net.min_interval (r ∷ sent)
AreSpaced-step net r now last [] sleeps e h = tt
AreSpaced-step net r now last (q ∷ sent) sleeps e h =
    let at : r.sent_at ≡ ready_at net (some q.sent_at) now =
      subst (λ l. r.sent_at ≡ ready_at net l now) h.0 e in
    (omega (arith, at, ready_at_lem net q.sent_at now sleeps), h.1)

-- Whatever a collector asks for, links that the BMC supplied included: every GET that _send forms has
-- a path of the read-only surface, the client's count of GETs is the number of those, and what goes
-- out besides is only what the HTTP library follows of the BMC's redirects, which the fence does
-- not see: at most `limit` for each GET, the library's max_redirects, and none at all where the
-- limit is 0.
pub run_collector-AreReadOnly :
    (n : Numeric) (str : Value n.Number → Text) (repr : Text → Text) (net : Network n.Number)
    (limit : ℕ) (col : Collector n.Number) (verify : Bool) (now : ℕ)
    → FollowsAtMost limit net
    → let c = run_collector n str repr net col (new_client verify now) in
      AreReadOnly c.sent × (c.gets ≡ length c.sent) × (length c.followed ≤ limit * length c.sent)
run_collector-AreReadOnly n str repr net limit col verify now few =
    run_collector-Holds n str repr net
      (λ verify tls b gets last sent followed.
        AreReadOnly sent × (gets ≡ length sent) × (length followed ≤ limit * length sent))
      (λ r verify b b' gets now' last sent followed paid safe e h.
        ((safe, h.0), omega (arith, h.1), length_followed limit net r sent followed few h.2))
      (λ b gets last sent followed h. h) (λ verify tls b bs gets last sent followed h. h)
      (λ verify tls bs gets last sent followed h. h) col (new_client verify now)
      (tt, refl, omega arith)

-- Never two GETs of _send closer than the minimum interval to one BMC, over whole collectors with
-- their pauses and probes, if time.sleep sleeps at least the time it is given. The redirects that
-- the HTTP library follows within one GET are not among them.
pub run_collector-AreSpaced :
    (n : Numeric) (str : Value n.Number → Text) (repr : Text → Text) (net : Network n.Number)
    (col : Collector n.Number) (verify : Bool) (now : ℕ)
    → Sleeps net
    → AreSpaced net.min_interval (run_collector n str repr net col (new_client verify now)).sent
run_collector-AreSpaced n str repr net col verify now sleeps =
    (run_collector-Holds n str repr net
      (λ verify tls b gets last sent followed.
        (last ≡ last_of sent) × AreSpaced net.min_interval sent)
      (λ r verify b b' gets now' last sent followed paid safe e h.
        (refl, AreSpaced-step net r now' last sent sleeps e h))
      (λ b gets last sent followed h. h) (λ verify tls b bs gets last sent followed h. h)
      (λ verify tls bs gets last sent followed h. h) col (new_client verify now) (refl, tt)).1
