-- ===== src/TransportRedfish/Budgets.antt =====
-- The GET budgets of a check (jobs/transport_redfish.py, `_GetBudget` and `budget`).
use nautobot_testsuite.Base.{
  ℕ, ◌+◌, ◌*◌, ◌≤◌, ◌≡◌, refl, sym, ap, ◌∙◌, subst, Bool, false, none, some, List, ◌∷◌, ◌++◌,
  length, length-append, arith, leb, Text, Bool-cases, inl, inr,
}
use nautobot_testsuite.Numeric.{Numeric}
use nautobot_testsuite.DiffCore.Values.{Value}
use nautobot_testsuite.RedfishPaths.Fence.{Fenced, send, refused, fence_path}
use nautobot_testsuite.TransportRedfish.Records.{
  RedfishError, Request, GetBudget, Client, Network, FollowsAtMost,
}
use nautobot_testsuite.TransportRedfish.Client.{
  raised, charged, outer, is_invalid, enter_budget, exit_budget, get, send_get, send_fenced,
  send_charged, read_answer,
}
use nautobot_testsuite.TransportRedfish.Collectors.{Collector, finish, budget, run_collector}
use nautobot_testsuite.TransportRedfish.Footprint.{IsFlat, run_flat-Holds}

scale : (limit a b : ℕ) → a ≤ b → limit * a ≤ limit * b
scale limit a b h = grind (arith, h)

-- In a with block: its budget stands above the outer ones, and has counted the GETs since the start;
-- the redirects that were followed meanwhile are at most `limit` for each.
abbrev InBlock : ℕ → ℕ → List GetBudget → ℕ → ℕ → List GetBudget → List Request → List Text → Type 0
InBlock limit max_gets around start before budgets sent followed =
    (b : GetBudget) × (budgets ≡ b ∷ around)
    × (b.max_gets ≡ max_gets)
    × (b.used ≤ max_gets)
    × (length sent ≡ start + b.used)
    × (length followed ≤ before + limit * b.used)

InBlock-step :
    {N : Type 0} (net : Network N) (limit max_gets : ℕ) (around : List GetBudget) (start before : ℕ)
    (r : Request) (bs bs' : List GetBudget) (sent : List Request) (followed : List Text)
    → FollowsAtMost limit net
    → charged bs ≡ some bs'
    → InBlock limit max_gets around start before bs sent followed
    → InBlock limit max_gets around start before bs' (r ∷ sent) (net.redirects sent r ++ followed)
unfolding charged
InBlock-step net limit max_gets around start before r bs bs' sent followed few paid
      (b, e, most, below, count, extra) =
    let paid₂ : charged (b ∷ around) ≡ some bs' = subst (λ x. charged x ≡ some bs') e paid in
    let more = few sent r in
    let both = length-append (net.redirects sent r) followed in
    elim (Bool-cases (leb b.max_gets b.used)) [
      | inl full ↦ absurd (let bad : none ≡ some bs' = sym (rw full refl) ∙ paid₂ in cc)
      | inr room ↦
          let same : some (record b { used = b.used + 1 } ∷ around) ≡ some bs' =
            sym (rw room refl) ∙ paid₂ in
          (
            record b { used = b.used + 1 },
            cc,
            most,
            ground (arith, room, most),
            omega (arith, count),
            omega (arith, more, both, extra),
          )
    ]

-- A with block forms at most as many GETs as its budget says, never more than 40, and leaves the
-- outer budgets as they were; its body may ask for anything, as often as it likes, and takes the
-- error of a GET beyond the budget as it likes, but has no budget of its own inside. The redirects
-- that the HTTP library follows are not charged: there are at most `limit` for each GET of the
-- budget, the library's max_redirects.
pub run_collector-budget :
    (n : Numeric) (str : Value n.Number → Text) (repr : Text → Text) (net : Network n.Number)
    (limit : ℕ) (label : Text) (max_gets : ℕ) (body : Collector n.Number) (c : Client)
    → IsFlat body
    → FollowsAtMost limit net
    → let d = run_collector n str repr net (budget label max_gets body (λ e. finish)) c in
      (length d.sent ≤ length c.sent + max_gets)
      × (length d.sent ≤ length c.sent + 40)
      × (length d.followed ≤ length c.followed + limit * max_gets)
      × (d.budgets ≡ c.budgets)
unfolding run_collector enter_budget exit_budget is_invalid outer
run_collector-budget n str repr net limit label max_gets body c flat few =
    let (b, e, most, below, count, extra) =
      run_flat-Holds n str repr net
        (λ verify tls bs gets last sent followed.
          InBlock limit max_gets c.budgets (length c.sent) (length c.followed) bs sent followed)
        (λ r verify bs bs' gets now last sent followed paid safe t h.
          InBlock-step net limit max_gets c.budgets (length c.sent) (length c.followed) r bs bs'
            sent followed few paid h)
        (λ b gets last sent followed h. h) body (enter_budget label max_gets c) flat
        (
          record { label = label; max_gets = max_gets; used = 0 },
          refl,
          refl,
          omega arith,
          omega arith,
          omega arith,
        ) in
    let scaled = scale limit b.used max_gets below in
    elim (Bool-cases (is_invalid max_gets)) [
      | inl bad ↦ rw bad (omega arith, omega arith, omega arith, refl)
      | inr fine ↦
          rw fine (omega arith, ground (arith, fine), omega (arith, scaled, extra), ap outer e)
    ]

-- A GET that an exhausted budget meets raises and is not sent: the client is as it was.
pub get_exhausted :
    {N : Type 0} (net : Network N) (path : Text) (ok_404 : Bool) (c : Client) (b : GetBudget)
    (bs : List GetBudget)
    → c.budgets ≡ b ∷ bs
    → b.max_gets ≤ b.used
    → ((e : RedfishError) × ((get net path ok_404 c).0 ≡ raised e))
      × ((get net path ok_404 c).1 ≡ c)
unfolding get send_get charged send_fenced send_charged read_answer
get_exhausted net path ok_404 c b bs e full = by_fence (fence_path path)
  where
    none_left : charged c.budgets ≡ none
    none_left = subst (λ x. charged x ≡ none) (sym e) (ground arith)

    by_fence :
        (f : Fenced)
        → ((e : RedfishError) × (read_answer net path ok_404 (send_fenced net path false c f).0
              ≡ raised e))
          × ((send_fenced net path false c f).1 ≡ c)
    by_fence (refused reason) = ((_, refl), refl)
    by_fence (send wire) = rw none_left ((_, refl), refl)
