-- ===== src/Scope/Rows.antt =====
-- The rows that `resolve` of jobs/scope.py reads. The location, role and status of a device are only
-- passed through, and a row that has no group is one whose group is None or {}.
use nautobot_testsuite.Base.{Bool, Option, List, Text, Dict}
use nautobot_testsuite.Scope.Platforms.{Platform}

-- row["managed_group"]; a controller_pk that is missing is the empty text
pub record Group : Type 0 where
  pub controller_pk : Text
  pub capabilities : List Text

pub record Row : Type 0 where
  pub name : Text
  pub platform : Platform
  pub has_bmc : Bool
  pub managed_group : Option Group

-- `device` is the primary key of the controller's device with its row.
pub record Controller : Type 0 where
  pub name : Text
  pub capabilities : List Text
  pub device : Option (Text × Row)
  pub has_redundancy_group : Bool

-- The devices and controllers by primary key, and the keys that are excluded.
pub record Inventory : Type 0 where
  pub devices : Dict Row
  pub controllers : Dict Controller
  pub excluded : List Text
