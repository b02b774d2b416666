-- ===== src/Scope/Promises.antt =====
-- What each disposition of a scope says of its device (jobs/scope.py, `resolve`).
use nautobot_testsuite.Base.{
  ◌≡◌, ◌≢◌, refl, Bool, true, false, ◌&&◌, not, Option, none, some, [], ◌∷◌, ◌++◌, arith, Text,
  codes, Dict, lookup, contains, is_some, is_empty, ◌⊎◌,
}
use nautobot_testsuite.Scope.Platforms.{Family, family_of}
use nautobot_testsuite.Scope.Rows.{Group, Row, Controller, Inventory}
use nautobot_testsuite.Scope.Dispositions.{
  Disposition, excluded, capture, skipped_unsupported, covered_by_controller,
  controller_not_capturable, is_captured, target_of, has_redundancy, controller_capabilities,
}

module _ (lower_case : Text → Text) (inventory : Inventory) where
  -- A controller's device has this key.
  abbrev pub IsDevice : Text → Option (Text × Row) → Type 0
  IsDevice k none = ⊥
  IsDevice k (some (pk, row)) = k ≡ pk

  abbrev pub IsDeviceOf : Text → Option Controller → Type 0
  IsDeviceOf k none = ⊥
  IsDeviceOf k (some controller) = IsDevice k controller.device

  -- A device is reached through a controller: it is in a managed group, it is not the controller's own
  -- device, and the group or its controller is wireless, or neither names a capability and the
  -- device's platform has no family.
  abbrev pub IsManaged : Text → Option Group → Option Family → Type 0
  IsManaged k none family = ⊥
  IsManaged k (some group) family =
      let controller = lookup group.controller_pk inventory.controllers in
      let capabilities = group.capabilities ++ controller_capabilities controller in
      (¬ IsDeviceOf k controller)
      × ((contains (codes "wireless") capabilities ≡ true)
          ⊎ ((capabilities ≡ []) × (family ≡ none)))

  -- A controller's device is captured: it is selected, not excluded, and marked to be captured.
  abbrev pub IsCapturedDevice : Dict Disposition → Option (Text × Row) → Type 0
  IsCapturedDevice all none = ⊥
  IsCapturedDevice all (some (pk, row)) =
      (contains pk inventory.excluded ≡ false)
      × (is_some (lookup pk inventory.devices) ≡ true)
      × (lookup pk all ≡ some capture)

  abbrev pub CanCover : Dict Disposition → Option Controller → Type 0
  CanCover all none = ⊥
  CanCover all (some controller) =
      (controller.has_redundancy_group ≡ false) × IsCapturedDevice all controller.device

  -- The group has a controller, which is no redundancy group and whose device is captured.
  abbrev pub IsCovered : Dict Disposition → Option Group → Type 0
  IsCovered all none = ⊥
  IsCovered all (some group) =
      (group.controller_pk ≢ []) × CanCover all (lookup group.controller_pk inventory.controllers)

  -- What a disposition says of a device, given the dispositions of all.
  abbrev pub Explains : Dict Disposition → Text → Row → Disposition → Type 0
  Explains all k row excluded = contains k inventory.excluded ≡ true
  Explains all k row capture =
      (contains k inventory.excluded ≡ false)
      × (¬ IsManaged k row.managed_group (family_of lower_case row.platform))
      × ((family_of lower_case row.platform ≢ none) ⊎ (row.has_bmc ≡ true))
  Explains all k row skipped_unsupported =
      (contains k inventory.excluded ≡ false)
      × (¬ IsManaged k row.managed_group (family_of lower_case row.platform))
      × (family_of lower_case row.platform ≡ none)
      × (row.has_bmc ≡ false)
  Explains all k row covered_by_controller =
      (contains k inventory.excluded ≡ false)
      × IsManaged k row.managed_group (family_of lower_case row.platform)
      × IsCovered all row.managed_group
  Explains all k row controller_not_capturable =
      (contains k inventory.excluded ≡ false)
      × IsManaged k row.managed_group (family_of lower_case row.platform)
      × (¬ IsCovered all row.managed_group)

  is_captured-capture :
      (d : Option Disposition) → is_captured lower_case inventory d ≡ true → d ≡ some capture
  unfolding is_captured
  is_captured-capture none h = cc
  is_captured-capture (some excluded) h = cc
  is_captured-capture (some capture) h = refl
  is_captured-capture (some skipped_unsupported) h = cc
  is_captured-capture (some covered_by_controller) h = cc
  is_captured-capture (some controller_not_capturable) h = cc

  -- The test of the code for a controller's device.
  abbrev pub device_test : Dict Disposition → Option Text → Bool
  device_test all target = elim target [
    | none ↦ false
    | some t ↦
        not (contains t inventory.excluded)
        && is_some (lookup t inventory.devices)
        && is_captured lower_case inventory (lookup t all)
  ]

  abbrev key_of : Option (Text × Row) → Option Text
  key_of device = elim device [ none ↦ none | some (pk, row) ↦ some pk ]

  captured_device :
      (all : Dict Disposition) (device : Option (Text × Row))
      → device_test all (key_of device) ≡ true
      → IsCapturedDevice all device
  captured_device all none h = absurd cc
  captured_device all (some (pk, row)) h =
      (ground arith, ground arith, is_captured-capture (lookup pk all) (ground arith))

  device_captured :
      (all : Dict Disposition) (device : Option (Text × Row))
      → IsCapturedDevice all device
      → device_test all (key_of device) ≡ true
  unfolding is_captured
  device_captured all none h = absurd h
  device_captured all (some (pk, row)) (a, b, c) = ground arith

  -- The test of the code for a controller.
  abbrev pub cover_test : Dict Disposition → Text → Option Controller → Bool
  cover_test all pk found =
      not (is_empty pk)
      && not (has_redundancy lower_case inventory found)
      && device_test all (target_of found)

  pub covering :
      (all : Dict Disposition) (pk : Text) (found : Option Controller)
      → cover_test all pk found ≡ true
      → (pk ≢ []) × CanCover all found
  unfolding has_redundancy target_of is_empty
  covering all [] found h = absurd cc
  covering all (p ∷ pk) none h = absurd cc
  covering all (p ∷ pk) (some c) h =
      (λ e. absurd cc, (ground arith, captured_device all c.device (ground arith)))

  pub covered :
      (all : Dict Disposition) (pk : Text) (found : Option Controller)
      → (pk ≢ []) × CanCover all found
      → cover_test all pk found ≡ true
  unfolding has_redundancy target_of is_empty
  covered all [] found (a, b) = absurd (a refl)
  covered all (p ∷ pk) none (a, b) = absurd b
  covered all (p ∷ pk) (some c) (a, (b, d)) = ground (arith, device_captured all c.device d)
