-- ===== src/Examples/Targets.antt =====
-- Concrete BMC interfaces (jobs/bmc_target.py) and SSH reads (jobs/context.py).
use nautobot_testsuite.Base.{
  ◌≡◌, refl, true, false, none, some, List, [], ◌∷◌, Text, codes, text_eq, is_alnum, eq_of_text_eq,
  starts_with, length,
}
use nautobot_testsuite.BmcTarget.Rule.{Ipaddress, Interface, ambiguous, pick_address, find_bmc}
use nautobot_testsuite.BmcTarget.Choice.{usable, IsPick, pick_address-IsPick}
use nautobot_testsuite.BmcTarget.Verdict.{bmc_interfaces, IsVerdictOf, find_bmc-IsVerdictOf}
use nautobot_testsuite.Context.Redaction.{Answer, gives}
use nautobot_testsuite.Context.Ssh.{SshAnswer, prints, SshState}

abbrev texts_as_addresses : Ipaddress
texts_as_addresses = record {
  Address = Text;
  as_ip = λ t. some t;
  same = λ a b. text_eq a b;
  is_link_local = λ a. starts_with a (codes "169.254.");
  version = λ a. 4;
  number = λ a. length a;
  spelled = λ a. a;
}

abbrev addresses : List Text
addresses = codes "169.254.0.1" ∷ codes "10.0.0.5" ∷ []

pick_address-IsPick_example :
    IsPick texts_as_addresses
      (usable texts_as_addresses addresses)
      (pick_address texts_as_addresses addresses)
pick_address-IsPick_example =
    pick_address-IsPick texts_as_addresses addresses (λ a b e. eq_of_text_eq a b e)

abbrev interfaces : List Interface
interfaces =
    record { name = codes "eth0"; addresses = []; id = 0 }
    ∷ record { name = codes "iLO 5"; addresses = addresses; id = 1 }
    ∷ []

find_bmc-IsVerdictOf_example :
    IsVerdictOf texts_as_addresses
      (bmc_interfaces interfaces)
      (find_bmc texts_as_addresses interfaces)
find_bmc-IsVerdictOf_example = find_bmc-IsVerdictOf texts_as_addresses interfaces

-- Two interfaces with a BMC's name are refused, their names in order.
two_bmcs :
    find_bmc texts_as_addresses (
      record { name = codes "xcc"; addresses = []; id = 0 }
      ∷ record { name = codes "bmc0"; addresses = []; id = 1 }
      ∷ [])
    ≡ ambiguous (codes "bmc0" ∷ codes "xcc" ∷ [])
unfolding find_bmc is_alnum text_eq
two_bmcs = refl

-- A redactor that keeps only a notice.
abbrev notice : Text
notice = codes "[redacted]"

abbrev noticing : Text → Answer Text
noticing t = gives notice

-- Nothing that starts as the secret does.
abbrev IsHarmless : Text → Type 0
IsHarmless t = starts_with t (codes "secret") ≡ false

abbrev secret_transport : Text → SshAnswer
secret_transport command = prints (codes "secret") (some (codes "secret error", some 1))

abbrev fresh_state : SshState
fresh_state = record { debug = true; trace = []; last_result = none }
