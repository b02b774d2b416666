-- ===== src/Scope/Dispositions.antt =====
-- The disposition of each device of `resolve` (jobs/scope.py), from the devices that are selected with
-- the controllers pulled in: the loop over the devices, and the loop over the dependencies.
use nautobot_testsuite.Base.{
  Bool, true, false, ◌&&◌, ◌||◌, not, Option, none, some, List, [], ◌∷◌, ◌++◌, if◌then◌else◌,
  is_empty, is_some, Text, codes, text_eq, Dict, lookup, put, contains,
}
use nautobot_testsuite.Scope.Platforms.{family_of, unsupported_reason}
use nautobot_testsuite.Scope.Rows.{Group, Row, Controller, Inventory}

pub data Disposition : Type 0 where
  excluded capture skipped_unsupported covered_by_controller controller_not_capturable : Disposition

-- (controller_pk, controller, target_id)
pub record Dependency : Type 0 where
  pub controller_pk : Text
  pub controller : Option Controller
  pub target : Option Text

-- What the first loop makes of a device: its disposition and reason, or a dependency.
pub data Outcome : Type 0 where
  decided : Disposition → Option Text → Outcome
  depends : Dependency → Outcome

unfoldable pub group_controller : Option Group → Text
group_controller none = []
group_controller (some group) = group.controller_pk

unfoldable pub group_capabilities : Option Group → List Text
group_capabilities none = []
group_capabilities (some group) = group.capabilities

unfoldable pub controller_capabilities : Option Controller → List Text
controller_capabilities none = []
controller_capabilities (some controller) = controller.capabilities

-- _identity(target) if target else None
unfoldable pub target_of : Option Controller → Option Text
target_of none = none
target_of (some controller) = elim controller.device [ none ↦ none | some (pk, row) ↦ some pk ]

unfoldable pub is_target : Text → Option Text → Bool
is_target identifier none = false
is_target identifier (some target) = text_eq identifier target

module _ (lower_case : Text → Text) (inventory : Inventory) where
  -- _supported
  unfoldable pub is_supported : Row → Bool
  unfolding family_of
  is_supported row = is_some (family_of lower_case row.platform) || row.has_bmc

  unfoldable pub dependency_of : Row → Dependency
  unfolding group_controller target_of lookup
  dependency_of row =
      let controller_pk = group_controller row.managed_group in
      let controller = lookup controller_pk inventory.controllers in
      record {
        controller_pk = controller_pk;
        controller = controller;
        target = target_of controller;
      }

  -- managed_coverage
  unfoldable pub is_managed : Text → Row → Dependency → Bool
  unfolding group_capabilities controller_capabilities is_target contains is_empty family_of
  is_managed identifier row d =
      let capabilities =
        group_capabilities row.managed_group ++ controller_capabilities d.controller in
      is_some row.managed_group
      && not (is_target identifier d.target)
      && (contains (codes "wireless") capabilities
          || (is_empty capabilities && not (is_some (family_of lower_case row.platform))))

  -- The body of the loop over the devices.
  unfoldable pub classify : Text → Row → Outcome
  unfolding contains dependency_of is_managed is_supported unsupported_reason
  classify identifier row =
      if contains identifier inventory.excluded
      then decided excluded (some (codes "Selected in exclude_devices"))
      else if is_managed identifier row (dependency_of row)
      then depends (dependency_of row)
      else if is_supported row
      then decided capture none
      else decided skipped_unsupported (some (unsupported_reason lower_case row.platform))

  -- The dispositions and the dependencies that the first loop leaves.
  unfoldable pub decided_of : Dict Row → Dict Disposition
  unfolding classify
  decided_of [] = []
  decided_of ((identifier, row) ∷ devices) =
      let rest = decided_of devices in
      elim (classify identifier row) [
        | decided d reason ↦ (identifier, d) ∷ rest
        | depends dependency ↦ rest
      ]

  unfoldable pub dependencies_of : Dict Row → Dict Dependency
  unfolding classify
  dependencies_of [] = []
  dependencies_of ((identifier, row) ∷ devices) =
      let rest = dependencies_of devices in
      elim (classify identifier row) [
        | decided d reason ↦ rest
        | depends dependency ↦ (identifier, dependency) ∷ rest
      ]

  unfoldable pub has_redundancy : Option Controller → Bool
  has_redundancy none = false
  has_redundancy (some controller) = controller.has_redundancy_group

  unfoldable pub is_captured : Option Disposition → Bool
  is_captured none = false
  is_captured (some d) = elim d [ capture ↦ true | _ ↦ false ]

  -- The tests of the loop over the dependencies, on the dispositions so far: whether the controller
  -- covers the device.
  unfoldable pub is_covered : Dict Disposition → Dependency → Bool
  unfolding has_redundancy is_captured lookup contains is_empty
  is_covered dispositions d =
      not (is_empty d.controller_pk) && not (has_redundancy d.controller) && (elim d.target [
        | none ↦ false
        | some target ↦
            not (contains target inventory.excluded)
            && is_some (lookup target inventory.devices)
            && is_captured (lookup target dispositions)
      ])

  -- str(controller.get("name", controller_pk)) if controller else controller_pk
  unfoldable pub controller_name : Dependency → Text
  controller_name d = elim d.controller [
    | none ↦ d.controller_pk
    | some controller ↦ controller.name
  ]

  -- The reasons of the loop over the dependencies, from the target on.
  unfoldable pub target_reason : Dict Disposition → Text → Option Text → Text
  unfolding contains lookup is_captured
  target_reason dispositions name none =
      codes "Controller '" ++ name ++ codes "' has no Controller device; set Controller device"
  target_reason dispositions name (some target) =
      if contains target inventory.excluded
      then codes "Controller '"
        ++ name
        ++ codes
            "' device is excluded; remove it from exclude_devices to capture its managed devices"
      else elim (lookup target inventory.devices) [
        | none ↦
            codes "Controller '"
            ++ name
            ++ codes
                "' device is not selected; enable include_controllers or select its device explicitly"
        | some row ↦
            if is_captured (lookup target dispositions)
            then codes "Covered by controller '"
              ++ name
              ++ codes "' (device '"
              ++ row.name
              ++ codes "')"
            else codes "Controller '"
              ++ name
              ++ codes "' device is not capturable; set a supported platform or model its BMC"
      ]

  unfoldable pub dependency_reason : Dict Disposition → Dependency → Text
  unfolding controller_name target_reason has_redundancy is_empty
  dependency_reason dispositions d =
      if is_empty d.controller_pk
      then codes "Managed-device group has no controller; set the group's Controller"
      else if has_redundancy d.controller
      then codes "Controller '"
        ++ controller_name d
        ++ codes "': controller redundancy groups are not supported yet; set Controller device"
      else target_reason dispositions (controller_name d) d.target

  -- The loop over the dependencies.
  unfoldable pub settle : Dict Dependency → Dict Disposition → Dict Disposition
  unfolding is_covered put
  settle [] dispositions = dispositions
  settle ((identifier, d) ∷ rest) dispositions = settle rest (
      put identifier
        (if is_covered dispositions d then covered_by_controller else controller_not_capturable)
        dispositions)

  -- disposition
  unfoldable pub dispositions : Dict Disposition
  unfolding settle decided_of dependencies_of
  dispositions = settle (dependencies_of inventory.devices) (decided_of inventory.devices)
