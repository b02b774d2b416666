-- ===== src/TransportRedfish/Tls.antt =====
-- The TLS mode of a BMC's client (jobs/transport_redfish.py, `ping` and `enable_legacy_tls`).
use nautobot_testsuite.Base.{
  ℕ, ◌≡◌, refl, subst, Bool, true, false, List, [], ◌∷◌, Text, inl, inr, ◌⊎◌,
}
use nautobot_testsuite.Numeric.{Numeric}
use nautobot_testsuite.DiffCore.Values.{Value}
use nautobot_testsuite.TransportRedfish.Records.{TlsMode, default_tls, legacy_tls, Request, Network}
use nautobot_testsuite.TransportRedfish.Collectors.{Collector, run_collector}
use nautobot_testsuite.TransportRedfish.Footprint.{new_client, run_collector-Holds}

abbrev pub AreDefault : List Request → Type 0
AreDefault [] = Unit {0}
AreDefault (r ∷ sent) = (r.tls ≡ default_tls) × AreDefault sent

-- The last GETs went in the legacy mode and all before them in the default mode.
abbrev pub AreDowngraded : List Request → Type 0
AreDowngraded [] = Unit {0}
AreDowngraded (r ∷ sent) = ((r.tls ≡ legacy_tls) × AreDowngraded sent) ⊎ AreDefault (r ∷ sent)

-- What the mode of a client says of the GETs that it sent, by whether it verifies certificates.
abbrev pub IsTlsKept : Bool → TlsMode → List Request → Type 0
IsTlsKept true tls sent = (tls ≡ default_tls) × AreDefault sent
IsTlsKept false default_tls sent = AreDefault sent
IsTlsKept false legacy_tls sent = AreDowngraded sent

IsTlsKept-step :
    (verify : Bool) (r : Request) (tls : TlsMode) (sent : List Request)
    → r.tls ≡ tls
    → IsTlsKept verify tls sent
    → IsTlsKept verify tls (r ∷ sent)
IsTlsKept-step true r tls sent e (mode, kept) = (mode, (cc, kept))
IsTlsKept-step false r default_tls sent e kept = (e, kept)
IsTlsKept-step false r legacy_tls sent e kept = inl (e, kept)

AreDowngraded-default : (sent : List Request) → AreDefault sent → AreDowngraded sent
AreDowngraded-default [] h = tt
AreDowngraded-default (r ∷ sent) h = inr h

-- A client that verifies certificates never downgrades its TLS, whatever a collector asks for and
-- whatever fails: every GET that _send forms goes in the default mode. One that does not verify
-- them downgrades at most once and for good: no GET of the default mode follows one of the legacy
-- mode.
pub run_collector-IsTlsKept :
    (n : Numeric) (str : Value n.Number → Text) (repr : Text → Text) (net : Network n.Number)
    (col : Collector n.Number) (verify : Bool) (now : ℕ)
    → let c = run_collector n str repr net col (new_client verify now) in
      (c.verify ≡ verify) × IsTlsKept verify c.tls_mode c.sent
run_collector-IsTlsKept n str repr net col verify now =
    let (same, kept) =
      run_collector-Holds n str repr net
        (λ v tls b gets last sent followed. (v ≡ verify) × IsTlsKept v tls sent)
        (λ r v b b' gets now' last sent followed paid safe e h.
          (h.0, IsTlsKept-step v r r.tls sent refl h.1))
        (λ b gets last sent followed h. (h.0, AreDowngraded-default sent h.1))
        (λ v tls b bs gets last sent followed h. h) (λ v tls bs gets last sent followed h. h) col
        (new_client verify now) (refl, nothing_sent verify) in
    let c = run_collector n str repr net col (new_client verify now) in
    (same, subst (λ v. IsTlsKept v c.tls_mode c.sent) same kept)
  where
    nothing_sent : (v : Bool) → IsTlsKept v default_tls []
    nothing_sent true = (refl, tt)
    nothing_sent false = tt
