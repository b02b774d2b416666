-- ===== src/Scope/Managed.antt =====
-- When a device is reached through a controller (jobs/scope.py, `managed_coverage`).
use nautobot_testsuite.Base.{
  ◌≡◌, refl, subst, Bool, true, ◌&&◌, ◌||◌, not, Option, none, some, [], ◌∷◌, ◌++◌, arith, List,
  Text, codes, text_eq, eq_of_text_eq, text_eq_refl, lookup, contains, is_some, is_empty,
  Bool-cases, inl, inr, ◌⊎◌,
}
use nautobot_testsuite.Scope.Platforms.{Family}
use nautobot_testsuite.Scope.Rows.{Group, Row, Controller, Inventory}
use nautobot_testsuite.Scope.Dispositions.{
  target_of, is_target, controller_capabilities, group_controller, group_capabilities,
}
use nautobot_testsuite.Scope.Promises.{IsDevice, IsDeviceOf, IsManaged}

module _ (lower_case : Text → Text) (inventory : Inventory) where
  IsDeviceOf-target :
      (k : Text) (found : Option Controller)
      → is_target k (target_of found) ≡ true
      → IsDeviceOf lower_case inventory k found
  unfolding is_target target_of
  IsDeviceOf-target k none h = absurd cc
  IsDeviceOf-target k (some controller) h = by_device controller.device h
    where
      by_device :
          (device : Option (Text × Row))
          → is_target k (elim device [ none ↦ none | some (pk, row) ↦ some pk ]) ≡ true
          → IsDevice lower_case inventory k device
      by_device none h = absurd cc
      by_device (some (pk, row)) h = eq_of_text_eq k pk h

  target_of_device :
      (k : Text) (found : Option Controller)
      → IsDeviceOf lower_case inventory k found
      → is_target k (target_of found) ≡ true
  unfolding is_target target_of
  target_of_device k none h = absurd h
  target_of_device k (some controller) h = by_device controller.device h
    where
      by_device :
          (device : Option (Text × Row))
          → IsDevice lower_case inventory k device
          → is_target k (elim device [ none ↦ none | some (pk, row) ↦ some pk ]) ≡ true
      by_device none h = absurd h
      by_device (some (pk, row)) h = subst (λ j. text_eq k j ≡ true) h (text_eq_refl k)

  -- The test of the code for a managed device.
  abbrev pub managed_test : Text → Option Group → Option Family → Bool
  managed_test k group family =
      let found = lookup (group_controller group) inventory.controllers in
      let capabilities = group_capabilities group ++ controller_capabilities found in
      is_some group
      && not (is_target k (target_of found))
      && (contains (codes "wireless") capabilities
          || (is_empty capabilities && not (is_some family)))

  by_capabilities :
      (capabilities : List Text) (family : Option Family)
      → (contains (codes "wireless") capabilities
          || (is_empty capabilities && not (is_some family)))
        ≡ true
      → (contains (codes "wireless") capabilities ≡ true) ⊎ ((capabilities ≡ []) × (family ≡ none))
  unfolding is_empty contains
  by_capabilities [] none h = inr (refl, refl)
  by_capabilities [] (some family) h = absurd cc
  by_capabilities (c ∷ capabilities) family h = inl (ground arith)

  from_capabilities :
      (capabilities : List Text) (family : Option Family)
      → (contains (codes "wireless") capabilities ≡ true) ⊎ ((capabilities ≡ []) × (family ≡ none))
      → (contains (codes "wireless") capabilities
          || (is_empty capabilities && not (is_some family)))
        ≡ true
  unfolding is_empty
  from_capabilities capabilities family (inl h) = ground arith
  from_capabilities capabilities family (inr (none_named, no_family)) =
      rw (none_named, no_family) (ground arith)

  pub managed :
      (k : Text) (group : Option Group) (family : Option Family)
      → managed_test k group family ≡ true
      → IsManaged lower_case inventory k group family
  unfolding group_controller group_capabilities
  managed k none family h = absurd cc
  managed k (some group) family h =
      let found = lookup group.controller_pk inventory.controllers in
      (
        λ itself. let same = target_of_device k found itself in ground (arith, same),
        by_capabilities (group.capabilities ++ controller_capabilities found) family (ground arith),
      )

  pub from_managed :
      (k : Text) (group : Option Group) (family : Option Family)
      → IsManaged lower_case inventory k group family
      → managed_test k group family ≡ true
  unfolding group_controller group_capabilities
  from_managed k none family h = absurd h
  from_managed k (some group) family (other, named) =
      let found = lookup group.controller_pk inventory.controllers in
      let test =
        from_capabilities (group.capabilities ++ controller_capabilities found) family named in
      elim (Bool-cases (is_target k (target_of found))) [
        | inl same ↦ absurd (other (IsDeviceOf-target k found same))
        | inr e ↦ ground (arith, e, test)
      ]
