-- ===== src/Examples/Selections.antt =====
-- A concrete registry and a selection (jobs/registry.py).
use nautobot_testsuite.Base.{
  ℕ, ◌≡◌, refl, true, ◌&&◌, none, some, List, [], ◌∷◌, Text, codes, Dict, lookup, contains, is_some,
  AreDistinct, text_eq, rstrip, lstrip, is_space, keep_unless_blank,
}
use nautobot_testsuite.DiffCore.Config.{no_compare}
use nautobot_testsuite.Registry.Checks.{
  CheckDef, registered, register_all, checks_for, only, parse_check_ids, tokens,
}
use nautobot_testsuite.Registry.Selection.{is_for, ids_of, checks_for-parse_check_ids}

abbrev check_of : Text → Text → CheckDef ℕ ℕ
check_of id platform = record {
  id = id;
  platform = platform;
  description = [];
  tier = 1;
  compare = no_compare;
  miss_meaning = [];
  collector = none;
  tags = [];
}

abbrev two_checks : List (CheckDef ℕ ℕ)
two_checks =
    check_of (codes "iosxe_vlans") (codes "iosxe")
    ∷ check_of (codes "bmc_system") (codes "bmc")
    ∷ []

abbrev two_registered : Dict (CheckDef ℕ ℕ)
two_registered =
    (codes "iosxe_vlans", check_of (codes "iosxe_vlans") (codes "iosxe"))
    ∷ (codes "bmc_system", check_of (codes "bmc_system") (codes "bmc"))
    ∷ []

abbrev raw_ids : Text
raw_ids = codes " bmc_system,, iosxe_vlans,bmc_system "

abbrev chosen : List Text
chosen = codes "bmc_system" ∷ codes "iosxe_vlans" ∷ []

registered_both : register_all two_checks [] ≡ registered two_registered
unfolding register_all text_eq
registered_both = refl

parsed_both : parse_check_ids raw_ids two_registered ≡ only chosen
unfolding parse_check_ids rstrip lstrip is_space keep_unless_blank
parsed_both = refl

checks_for-parse_check_ids_example :
    AreDistinct chosen
    × ((k : Text) → contains k chosen ≡ true → is_some (lookup k two_registered) ≡ true)
    × ((k : Text)
        → contains k (ids_of (checks_for (codes "bmc") (some chosen) two_registered))
          ≡ (contains k (tokens raw_ids) && is_for (codes "bmc") (lookup k two_registered)))
checks_for-parse_check_ids_example =
    checks_for-parse_check_ids two_checks two_registered raw_ids chosen (codes "bmc")
      registered_both parsed_both
