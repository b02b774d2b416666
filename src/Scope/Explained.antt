-- ===== src/Scope/Explained.antt =====
-- That the dispositions of a scope are what they say (jobs/scope.py, `resolve`).
use nautobot_testsuite.Base.{
  ◌≡◌, ◌≢◌, refl, sym, ◌∙◌, Bool, true, false, ◌||◌, Option, none, some, arith, Text, codes, Dict,
  lookup, keys, contains, is_some, is_empty, AreDistinct, if◌then◌else◌, inl, inr, ◌⊎◌,
}
use nautobot_testsuite.Scope.Platforms.{Family, family_of, unsupported_reason}
use nautobot_testsuite.Scope.Rows.{Group, Row, Inventory}
use nautobot_testsuite.Scope.Dispositions.{
  Disposition, excluded, capture, decided, depends, skipped_unsupported, covered_by_controller,
  controller_not_capturable, is_covered, is_managed, is_supported, dependency_of, classify,
  dispositions, group_controller,
}
use nautobot_testsuite.Scope.Coverage.{disposition_of, lookup-dispositions}
use nautobot_testsuite.Scope.Promises.{
  IsManaged, IsCovered, Explains, cover_test, covering, covered,
}
use nautobot_testsuite.Scope.Managed.{managed_test, managed, from_managed}

module _ (lower_case : Text → Text) (inventory : Inventory) where
  is_covered-IsCovered :
      (all : Dict Disposition) (row : Row)
      → is_covered lower_case inventory all (dependency_of lower_case inventory row) ≡ true
      → IsCovered lower_case inventory all row.managed_group
  unfolding is_covered dependency_of group_controller is_empty
  is_covered-IsCovered all row h = by_group row.managed_group h
    where
      by_group :
          (group : Option Group)
          → cover_test lower_case inventory all
              (group_controller group)
              (lookup (group_controller group) inventory.controllers)
            ≡ true
          → IsCovered lower_case inventory all group
      by_group none h = absurd cc
      by_group (some group) h =
          covering lower_case inventory all group.controller_pk
            (lookup group.controller_pk inventory.controllers) h

  IsCovered-is_covered :
      (all : Dict Disposition) (row : Row)
      → IsCovered lower_case inventory all row.managed_group
      → is_covered lower_case inventory all (dependency_of lower_case inventory row) ≡ true
  unfolding is_covered dependency_of group_controller
  IsCovered-is_covered all row h = by_group row.managed_group h
    where
      by_group :
          (group : Option Group)
          → IsCovered lower_case inventory all group
          → cover_test lower_case inventory all
              (group_controller group)
              (lookup (group_controller group) inventory.controllers)
            ≡ true
      by_group none h = absurd h
      by_group (some group) h =
          covered lower_case inventory all group.controller_pk
            (lookup group.controller_pk inventory.controllers) h

  -- A test that fails refutes what it decides.
  refuted : {P : Type 0} {b : Bool} → b ≡ false → (P → b ≡ true) → ¬ P
  refuted h f p = let bad = f p in cc

  supported_family :
      (family : Option Family) (bmc : Bool)
      → (is_some family || bmc) ≡ true
      → (family ≢ none) ⊎ (bmc ≡ true)
  supported_family none bmc h = inr (ground arith)
  supported_family (some family) bmc h = inl (λ e. cc)

  unsupported_family :
      (family : Option Family) (bmc : Bool)
      → (is_some family || bmc) ≡ false
      → (family ≡ none) × (bmc ≡ false)
  unsupported_family none bmc h = (refl, ground arith)
  unsupported_family (some family) bmc h = absurd cc

  is_managed-test :
      (k : Text) (row : Row)
      → is_managed lower_case inventory k row (dependency_of lower_case inventory row)
        ≡ managed_test lower_case inventory k row.managed_group (family_of lower_case row.platform)
  unfolding is_managed dependency_of
  is_managed-test k row = refl

  explained :
      (all : Dict Disposition) (k : Text) (row : Row)
      → Explains lower_case inventory all k row
          (disposition_of lower_case inventory all (classify lower_case inventory k row))
  unfolding classify disposition_of is_supported
  explained all k row =
      by_tests (contains k inventory.excluded) refl
        (is_managed lower_case inventory k row (dependency_of lower_case inventory row)) refl
        (is_some (family_of lower_case row.platform) || row.has_bmc) refl
    where
      family : Option Family
      family = family_of lower_case row.platform

      reached : Bool
      reached = is_covered lower_case inventory all (dependency_of lower_case inventory row)

      test : Bool
      test = managed_test lower_case inventory k row.managed_group family

      unmanaged : test ≡ false → ¬ IsManaged lower_case inventory k row.managed_group family
      unmanaged h = refuted h (from_managed lower_case inventory k row.managed_group family)

      by_reached :
          contains k inventory.excluded ≡ false
          → IsManaged lower_case inventory k row.managed_group family
          → (b : Bool) → reached ≡ b
          → Explains lower_case inventory all k row
              (if b then covered_by_controller else controller_not_capturable)
      by_reached a through true d = (a, through, is_covered-IsCovered all row d)
      by_reached a through false d = (a, through, refuted d (IsCovered-is_covered all row))

      by_tests :
          (out : Bool)
          → contains k inventory.excluded ≡ out
          → (through : Bool)
          → is_managed lower_case inventory k row (dependency_of lower_case inventory row) ≡ through
          → (supported : Bool) → (is_some family || row.has_bmc) ≡ supported
          → Explains lower_case inventory all k row (
              disposition_of lower_case inventory all (
                if out
                then decided excluded (some (codes "Selected in exclude_devices"))
                else if through
                then depends (dependency_of lower_case inventory row)
                else if supported
                then decided capture none
                else decided skipped_unsupported
                    (some (unsupported_reason lower_case row.platform))))
      by_tests true a through b supported c = a
      by_tests false a true b supported c =
          by_reached a
            (managed lower_case inventory k row.managed_group family
              (sym (is_managed-test k row) ∙ b))
            reached refl
      by_tests false a false b true c =
          (a, unmanaged (sym (is_managed-test k row) ∙ b), supported_family family row.has_bmc c)
      by_tests false a false b false c =
          let (no_family, no_bmc) = unsupported_family family row.has_bmc c in
          (a, unmanaged (sym (is_managed-test k row) ∙ b), no_family, no_bmc)

  -- Every device of a scope has a disposition, whatever the order of the rows, and it is what it
  -- says. The device is excluded exactly when it is in exclude_devices. Of the others, one is reached
  -- through a controller when it is in a managed group, is not the controller's own device, and the
  -- group or the controller is wireless, or neither names a capability and its platform has no
  -- family: it is covered when the group's controller has no redundancy group and has a device that
  -- is selected, not excluded and itself captured, and not capturable otherwise. The rest is captured
  -- if its platform has a family or it has a BMC, and skipped otherwise. No two devices have the same
  -- key.
  pub dispositions-Explains :
      (k : Text) (row : Row)
      → AreDistinct (keys inventory.devices)
      → lookup k inventory.devices ≡ some row
      → let all = dispositions lower_case inventory in
        (d : Disposition) × (lookup k all ≡ some d) × Explains lower_case inventory all k row d
  dispositions-Explains k row distinct found =
      (_, lookup-dispositions lower_case inventory k row distinct found, explained _ k row)
