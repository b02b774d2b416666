-- ===== src/Examples/Scopes.antt =====
-- A concrete scope (jobs/scope.py): an access point, its controller, and a switch that is excluded.
use nautobot_testsuite.Base.{
  ◌≡◌, refl, false, none, some, [], ◌∷◌, Text, codes, lookup, text_eq, keys, contains,
}
use nautobot_testsuite.Scope.Rows.{Row, Inventory}
use nautobot_testsuite.Scope.Dispositions.{Disposition, covered_by_controller, dispositions}
use nautobot_testsuite.Scope.Promises.{Explains}
use nautobot_testsuite.Scope.Explained.{dispositions-Explains}

abbrev same_case : Text → Text
same_case s = s

abbrev access_point : Row
access_point = record {
  name = codes "ap-1";
  platform = record { driver = codes "cisco_ap"; name = []; slug = [] };
  has_bmc = false;
  managed_group = some (record { controller_pk = codes "c"; capabilities = codes "wireless" ∷ [] });
}

abbrev wireless_controller : Row
wireless_controller = record {
  name = codes "wlc-1";
  platform = record { driver = codes "cisco_xe"; name = []; slug = [] };
  has_bmc = false;
  managed_group = none;
}

abbrev inventory : Inventory
inventory = record {
  devices =
      (codes "1", access_point)
      ∷ (codes "2", wireless_controller)
      ∷ (codes "3", wireless_controller)
      ∷ [];
  controllers =
      (
        codes "c",
        record {
          name = codes "wlc";
          capabilities = [];
          device = some (codes "2", wireless_controller);
          has_redundancy_group = false;
        },
      )
      ∷ [];
  excluded = codes "3" ∷ [];
}

access_point_covered :
    lookup (codes "1") (dispositions same_case inventory) ≡ some covered_by_controller
unfolding dispositions text_eq
access_point_covered = refl

dispositions-Explains_example :
    let all = dispositions same_case inventory in
    (d : Disposition) × (lookup (codes "1") all ≡ some d)
    × Explains same_case inventory all (codes "1") access_point d
unfolding keys contains text_eq lookup
dispositions-Explains_example =
    dispositions-Explains same_case inventory (codes "1") access_point (refl, (refl, (refl, tt)))
      refl
