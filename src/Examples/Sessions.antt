-- ===== src/Examples/Sessions.antt =====
-- Concrete SSH sessions (jobs/transport_ssh.py).
use nautobot_testsuite.Base.{
  ◌≡◌, refl, true, ◌&&◌, none, some, [], ◌∷◌, leb, Text, codes, text_eq, strip, if◌then◌else◌,
  contains, starts_with, any, rstrip, lstrip, is_space, keep_unless_blank,
}
use nautobot_testsuite.TransportSsh.Allowlist.{
  Environment, cisco_xe, allowed, allowed_stripped, after_prefix, matches_pattern, member_suffix,
  member_end,
}
use nautobot_testsuite.TransportSsh.Runner.{
  Device, Runner, new_runner, open_session, run, prepare, continue_prepare, send,
}
use nautobot_testsuite.TransportSsh.Sent.{
  AllVetted, Reach, Step, sent-AllVetted, run_after_failed_prep,
}

-- The SSH session: a device that comes up and answers nothing to the first command.
abbrev plain_environment : Environment
plain_environment = record { structured_reads = []; decimal = λ c. leb b'0' c && leb c b'9' }

abbrev silent_device : Device
silent_device = record {
  connects = λ sent. true;
  answer = λ sent command. if text_eq command (codes "terminal length 0") then none else some [];
}

abbrev firewall_device : Device
firewall_device = record { connects = λ sent. true; answer = λ sent command. some [] }

abbrev show_clock : Text
show_clock = codes "show clock"

abbrev session : Runner
session = (run plain_environment firewall_device show_clock (new_runner cisco_xe)).1

sent-AllVetted_example : AllVetted plain_environment cisco_xe session.sent
sent-AllVetted_example =
    sent-AllVetted plain_environment firewall_device cisco_xe session
      (Reach.next Reach.here (Step.running show_clock))

run_after_failed_prep_example :
    let opened = (open_session plain_environment silent_device (new_runner cisco_xe)).1 in
    (run plain_environment silent_device show_clock opened).1.sent ≡ strip show_clock ∷ opened.sent
unfolding run open_session allowed allowed_stripped prepare continue_prepare send new_runner
    after_prefix member_suffix member_end matches_pattern strip text_eq contains starts_with any
    rstrip lstrip is_space keep_unless_blank
run_after_failed_prep_example =
    run_after_failed_prep plain_environment silent_device show_clock (new_runner cisco_xe) refl refl
      refl refl
