-- ===== src/TransportSsh/Runner.antt =====
-- The session of `SshRunner` (jobs/transport_ssh.py): `open`, `run` and `close`, with the commands
-- that reached the device. What the device and the SSH library answer is a parameter.
use nautobot_testsuite.Base.{
  Bool, true, false, Option, none, some, List, [], ◌∷◌, Text, strip, if◌then◌else◌,
}
use nautobot_testsuite.TransportSsh.Allowlist.{Environment, DeviceType, session_prep, allowed}

-- The outside world: whether a connection comes up, and the answer to a command, none for a read
-- that raises. Both may depend on all that was sent before.
pub record Device : Type 0 where
  pub connects : List Text → Bool
  pub answer : List Text → Text → Option Text

pub record Runner : Type 0 where
  pub device_type : DeviceType
  -- self.conn is not None
  pub connected : Bool
  -- the commands sent so far, the last one first
  pub sent : List Text

pub data Outcome : Type 0 where
  output : Text → Outcome
  -- SshCommandRefused
  refused : Outcome
  -- an exception of the library or the device
  failed : Outcome

-- SshRunner.__init__
unfoldable pub new_runner : DeviceType → Runner
new_runner device = record { device_type = device; connected = false; sent = [] }

module _ (env : Environment) (device : Device) where
  -- self._send
  unfoldable pub send : Text → Runner → Outcome × Runner
  send command r = (
    elim (device.answer r.sent command) [ none ↦ failed | some text ↦ output text ],
    record r { sent = command ∷ r.sent },
  )

  -- The rest of the preparation, unless the send raised.
  unfoldable pub continue_prepare : Outcome × Runner → (Runner → Bool × Runner) → Bool × Runner
  continue_prepare (output text, r) rest = rest r
  continue_prepare (refused, r) rest = (false, r)
  continue_prepare (failed, r) rest = (false, r)

  -- The loop of `open` over the session-prep commands; a send that raises ends it.
  unfoldable pub prepare : List Text → Runner → Bool × Runner
  prepare [] r = (true, r)
  prepare (command ∷ rest) r = continue_prepare (send command r) (prepare rest)

  unfoldable pub open_session : Runner → Bool × Runner
  open_session r =
      if r.connected
      then (true, r)
      else if device.connects r.sent
      then prepare (session_prep r.device_type) (record r { connected = true })
      else (false, r)

  -- The send of `run`, when the session is open.
  unfoldable pub after_open : Text → Bool × Runner → Outcome × Runner
  after_open command (true, r) = send (strip command) r
  after_open command (false, r) = (failed, r)

  -- SshRunner.run
  unfoldable pub run : Text → Runner → Outcome × Runner
  run command r =
      if allowed env r.device_type command
      then after_open command (open_session r)
      else (refused, r)

  -- SshRunner.close; an exception of the teardown is logged, or is the job's time limit
  unfoldable pub close_session : Runner → Runner
  close_session r = record r { connected = false }
