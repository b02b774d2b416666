-- ===== src/TransportSsh/Sent.antt =====
-- What a session of jobs/transport_ssh.py sends.
use nautobot_testsuite.Base.{
  ◌≡◌, refl, Bool, true, false, List, [], ◌∷◌, Text, text_eq, contains, strip, Bool-cases, inl, inr,
  subst,
}
use nautobot_testsuite.TransportSsh.Allowlist.{
  Environment, DeviceType, paloalto_panos, cisco_xe, linux, session_prep, allowed,
}
use nautobot_testsuite.TransportSsh.Runner.{
  Device, Runner, Outcome, output, refused, failed, new_runner, send, prepare, continue_prepare,
  open_session, after_open, run, close_session,
}
use nautobot_testsuite.TransportSsh.Safety.{Vetted, allowed-Vetted, prep}

-- Every command of a list is vetted.
abbrev pub AllVetted : Environment → DeviceType → List Text → Type 0
AllVetted env device [] = Unit {0}
AllVetted env device (c ∷ cs) = Vetted env device c × AllVetted env device cs

-- What a caller can do with a session.
pub data Step (env : Environment) (device : Device) (r : Runner) : Runner → Type 0 where
  running : (command : Text) → Step env device r (run env device command r).1
  opening : Step env device r (open_session env device r).1
  closing : Step env device r (close_session env device r)

pub data Reach (env : Environment) (device : Device) (r : Runner) : Runner → Type 0 where
  here : Reach env device r r
  next : {s t : Runner} → Reach env device r s → Step env device s t → Reach env device r t

module _ (env : Environment) (device : Device) where
  abbrev IsSafe : DeviceType → Runner → Type 0
  IsSafe type r = (r.device_type ≡ type) × AllVetted env type r.sent

  continue_prepare-IsSafe :
      (type : DeviceType) (o : Outcome) (r : Runner) (rest : Runner → Bool × Runner)
      → IsSafe type r
      → IsSafe type (rest r).1
      → IsSafe type (continue_prepare env device (o, r) rest).1
  unfolding continue_prepare
  continue_prepare-IsSafe type (output text) r rest h k = k
  continue_prepare-IsSafe type refused r rest h k = h
  continue_prepare-IsSafe type failed r rest h k = h

  send-IsSafe :
      (type : DeviceType) (command : Text) (r : Runner)
      → Vetted env type command
      → IsSafe type r
      → IsSafe type (send env device command r).1
  unfolding send
  send-IsSafe type command r v h = (h.0, (v, h.1))

  prepare-IsSafe :
      (type : DeviceType) (commands : List Text) (r : Runner)
      → AllVetted env type commands
      → IsSafe type r
      → IsSafe type (prepare env device commands r).1
  unfolding prepare send
  prepare-IsSafe type [] r v h = h
  prepare-IsSafe type (c ∷ cs) r v h =
      continue_prepare-IsSafe type _ (record r { sent = c ∷ r.sent }) (prepare env device cs)
        (h.0, (v.0, h.1))
        (prepare-IsSafe type cs (record r { sent = c ∷ r.sent }) v.1 (h.0, (v.0, h.1)))

  session_prep-AllVetted : (type : DeviceType) → AllVetted env type (session_prep type)
  unfolding contains text_eq
  session_prep-AllVetted paloalto_panos = (prep refl, (prep refl, tt))
  session_prep-AllVetted cisco_xe = (prep refl, tt)
  session_prep-AllVetted linux = tt

  open_session-IsSafe :
      (type : DeviceType) (r : Runner) → IsSafe type r → IsSafe type (open_session env device r).1
  unfolding open_session
  open_session-IsSafe type r h = elim (Bool-cases r.connected) [
    | inl up ↦ rw up h
    | inr down ↦ rw down (elim (Bool-cases (device.connects r.sent)) [
      | inl comes ↦ rw comes (
          prepare-IsSafe type (session_prep r.device_type) (record r { connected = true })
            (rw h.0 (session_prep-AllVetted type)) h)
      | inr fails ↦ rw fails h
    ])
  ]

  after_open-IsSafe :
      (type : DeviceType) (command : Text) (up : Bool) (r : Runner)
      → Vetted env type (strip command)
      → IsSafe type r
      → IsSafe type (after_open env device command (up, r)).1
  unfolding after_open
  after_open-IsSafe type command true r v h = send-IsSafe type (strip command) r v h
  after_open-IsSafe type command false r v h = h

  run-IsSafe :
      (type : DeviceType) (command : Text) (r : Runner)
      → IsSafe type r
      → IsSafe type (run env device command r).1
  unfolding run
  run-IsSafe type command r h = elim (Bool-cases (allowed env r.device_type command)) [
    | inl ok ↦ rw ok (
        let (up, s) = open_session env device r in
        after_open-IsSafe type command up s
          (subst (λ t. Vetted env t (strip command)) h.0
            (allowed-Vetted env r.device_type command ok))
          (open_session-IsSafe type r h))
    | inr bad ↦ rw bad h
  ]

  Step-IsSafe :
      (type : DeviceType) {r s : Runner} → Step env device r s → IsSafe type r → IsSafe type s
  Step-IsSafe type {r} (running command) h = run-IsSafe type command r h
  Step-IsSafe type {r} opening h = open_session-IsSafe type r h
  Step-IsSafe type closing h = unfold close_session in h

  Reach-IsSafe :
      (type : DeviceType) {r s : Runner} → IsSafe type r → Reach env device r s → IsSafe type s
  Reach-IsSafe type h here = h
  Reach-IsSafe type h (next reach step) = Step-IsSafe type step (Reach-IsSafe type h reach)

  -- Whatever is run, opened and closed, and whatever the device answers, each command that reached
  -- the device is vetted for its type.
  pub sent-AllVetted :
      (type : DeviceType) (r : Runner)
      → Reach env device (new_runner type) r
      → AllVetted env type r.sent
  unfolding new_runner
  sent-AllVetted type r reach = (Reach-IsSafe type (refl, tt) reach).1

  abbrev Kept : Runner → Runner → Type 0
  Kept r s = (s.device_type ≡ r.device_type) × (s.connected ≡ r.connected)

  continue_prepare-Kept :
      (q : Runner) (o : Outcome) (r : Runner) (rest : Runner → Bool × Runner)
      → Kept q r
      → Kept q (rest r).1
      → Kept q (continue_prepare env device (o, r) rest).1
  unfolding continue_prepare
  continue_prepare-Kept q (output text) r rest h k = k
  continue_prepare-Kept q refused r rest h k = h
  continue_prepare-Kept q failed r rest h k = h

  prepare-Kept : (commands : List Text) (r : Runner) → Kept r (prepare env device commands r).1
  unfolding prepare send
  prepare-Kept [] r = (refl, refl)
  prepare-Kept (c ∷ cs) r =
      continue_prepare-Kept r _ (record r { sent = c ∷ r.sent }) (prepare env device cs)
        (refl, refl) (prepare-Kept cs (record r { sent = c ∷ r.sent }))

  opened-Kept :
      (r : Runner)
      → r.connected ≡ false
      → device.connects r.sent ≡ true
      → Kept (record r { connected = true }) (open_session env device r).1
  unfolding open_session
  opened-Kept r down comes =
      rw (down, comes) (prepare-Kept (session_prep r.device_type) (record r { connected = true }))

  run_connected :
      (command : Text) (r : Runner)
      → r.connected ≡ true
      → allowed env r.device_type command ≡ true
      → (run env device command r).1.sent ≡ strip command ∷ r.sent
  unfolding run open_session after_open send
  run_connected command r up ok = rw (ok, up) refl

  -- When the preparation of a new session fails, the session stays open, and the next command is
  -- sent with no further preparation.
  pub run_after_failed_prep :
      (command : Text) (r : Runner)
      → r.connected ≡ false
      → device.connects r.sent ≡ true
      → allowed env r.device_type command ≡ true
      → (open_session env device r).0 ≡ false
      → (run env device command (open_session env device r).1).1.sent
        ≡ strip command ∷ (open_session env device r).1.sent
  run_after_failed_prep command r down comes ok failure =
      let (same, up) = opened-Kept r down comes in
      run_connected command (open_session env device r).1 up (rw same ok)
