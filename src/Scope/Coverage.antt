-- ===== src/Scope/Coverage.antt =====
-- What the dispositions of a scope promise (jobs/scope.py, `resolve`).
use nautobot_testsuite.Base.{
  ◌≡◌, refl, sym, ap, ◌∙◌, Bool, true, false, ◌&&◌, not, Option, none, some, [], ◌∷◌, if◌then◌else◌,
  arith, Text, text_eq, eq_of_text_eq, text_eq_refl, Dict, lookup, keys, put, lookup-put, contains,
  contains-keys, is_some, is_empty, AreDistinct, Bool-cases, inl, inr,
}
use nautobot_testsuite.Scope.Rows.{Row, Inventory}
use nautobot_testsuite.Scope.Dispositions.{
  Disposition, covered_by_controller, controller_not_capturable, Dependency, Outcome, decided,
  depends, classify, decided_of, dependencies_of, is_captured, is_covered, settle, dispositions,
  has_redundancy,
}
use nautobot_testsuite.Scope.FirstLoop.{
  lookup_absent, AreDistinct-dependencies_of, never_both, lookup-decided_of, lookup-dependencies_of,
  decision_at, dependence_at, decision, dependence,
}

-- The mark of the second loop.
abbrev mark : Bool → Disposition
mark covered = if covered then covered_by_controller else controller_not_capturable

module _ (lower_case : Text → Text) (inventory : Inventory) where
  -- Nothing that is still to be settled is captured.
  abbrev AreOpen : Dict Dependency → Dict Disposition → Type 0
  AreOpen [] d = Unit {0}
  AreOpen ((k, x) ∷ rest) d =
      (is_captured lower_case inventory (lookup k d) ≡ false) × AreOpen rest d

  is_captured-mark : (b : Bool) → is_captured lower_case inventory (some (mark b)) ≡ false
  unfolding is_captured
  is_captured-mark true = refl
  is_captured-mark false = refl

  is_captured-put :
      (k t : Text) (b : Bool) (d : Dict Disposition)
      → is_captured lower_case inventory (lookup k d) ≡ false
      → is_captured lower_case inventory (lookup t (put k (mark b) d))
        ≡ is_captured lower_case inventory (lookup t d)
  is_captured-put k t b d h = elim (Bool-cases (text_eq k t)) [
    | inl e ↦
        let same_key : lookup t d ≡ lookup k d = ap (λ j. lookup j d) (sym (eq_of_text_eq k t e)) in
        ap (is_captured lower_case inventory) (lookup-put k t (mark b) d)
        ∙ rw (e, same_key) (is_captured-mark b ∙ sym h)
    | inr e ↦ ap (is_captured lower_case inventory) (lookup-put k t (mark b) d) ∙ rw e refl
  ]

  AreOpen-put :
      (k : Text) (b : Bool) (rest : Dict Dependency) (d : Dict Disposition)
      → is_captured lower_case inventory (lookup k d) ≡ false
      → AreOpen rest d
      → AreOpen rest (put k (mark b) d)
  AreOpen-put k b [] d h o = tt
  AreOpen-put k b ((j, x) ∷ rest) d h (here, o) =
      (is_captured-put k j b d h ∙ here, AreOpen-put k b rest d h o)

  is_captured-settle :
      (t : Text) (deps : Dict Dependency) (d : Dict Disposition)
      → AreOpen deps d
      → is_captured lower_case inventory (lookup t (settle lower_case inventory deps d))
        ≡ is_captured lower_case inventory (lookup t d)
  unfolding settle
  is_captured-settle t [] d o = refl
  is_captured-settle t ((k, x) ∷ rest) d (here, o) =
      let b = is_covered lower_case inventory d x in
      is_captured-settle t rest (put k (mark b) d) (AreOpen-put k b rest d here o)
      ∙ is_captured-put k t b d here

  is_covered-captured :
      (d e : Dict Disposition) (x : Dependency)
      → ((t : Text)
          → is_captured lower_case inventory (lookup t d)
            ≡ is_captured lower_case inventory (lookup t e))
      → is_covered lower_case inventory d x ≡ is_covered lower_case inventory e x
  unfolding is_covered
  is_covered-captured d e x h = at x.target
    where
      at :
          (target : Option Text)
          → (not (is_empty x.controller_pk)
              && not (has_redundancy lower_case inventory x.controller)
              && (elim target [
                | none ↦ false
                | some t ↦
                    not (contains t inventory.excluded)
                    && is_some (lookup t inventory.devices)
                    && is_captured lower_case inventory (lookup t d)
              ]))
            ≡ (not (is_empty x.controller_pk)
                && not (has_redundancy lower_case inventory x.controller)
                && (elim target [
                  | none ↦ false
                  | some t ↦
                      not (contains t inventory.excluded)
                      && is_some (lookup t inventory.devices)
                      && is_captured lower_case inventory (lookup t e)
                ]))
      at none = refl
      at (some t) = rw (h t) refl

  lookup-settle_absent :
      (k : Text) (deps : Dict Dependency) (d : Dict Disposition)
      → lookup k deps ≡ none
      → lookup k (settle lower_case inventory deps d) ≡ lookup k d
  unfolding settle lookup
  lookup-settle_absent k [] d h = refl
  lookup-settle_absent k ((j, x) ∷ rest) d h = elim (Bool-cases (text_eq j k)) [
    | inl e ↦ absurd (let bad : some x ≡ none = sym (rw e refl) ∙ h in cc)
    | inr e ↦
        let b = is_covered lower_case inventory d x in
        lookup-settle_absent k rest (put j (mark b) d) (sym (rw e refl) ∙ h)
        ∙ (lookup-put j k (mark b) d ∙ rw e refl)
  ]

  lookup-settle :
      (k : Text) (deps : Dict Dependency) (d : Dict Disposition) (x : Dependency)
      → AreDistinct (keys deps)
      → AreOpen deps d
      → lookup k deps ≡ some x
      → lookup k (settle lower_case inventory deps d)
        ≡ some (mark (is_covered lower_case inventory (settle lower_case inventory deps d) x))
  unfolding settle lookup keys
  lookup-settle k [] d x distinct o h = absurd cc
  lookup-settle k ((j, y) ∷ rest) d x (fresh, distinct) (here, o) h =
      let b = is_covered lower_case inventory d y in
      let d' = put j (mark b) d in
      let o' = AreOpen-put j b rest d here o in
      elim (Bool-cases (text_eq j k)) [
        | inl e ↦
            let is_x : some y ≡ some x = sym (rw e refl) ∙ h in
            let gone : lookup k rest ≡ none =
              ap (λ i. lookup i rest) (sym (eq_of_text_eq j k e)) ∙ lookup_absent j rest fresh in
            let last : lookup k (settle lower_case inventory rest d') ≡ some (mark b) =
              lookup-settle_absent k rest d' gone ∙ (lookup-put j k (mark b) d ∙ rw e refl) in
            let same =
              is_covered-captured d (settle lower_case inventory rest d') y
                (λ t. sym (is_captured-settle t rest d' o' ∙ is_captured-put j t b d here)) in
            let y_is_x : y ≡ x = cc in
            last
            ∙ ap (λ c. some (mark c))
                (same
                  ∙ ap (is_covered lower_case inventory (settle lower_case inventory rest d'))
                      y_is_x)
        | inr e ↦ lookup-settle k rest d' x distinct o' (sym (rw e refl) ∙ h)
      ]

  open_of_absent :
      (deps : Dict Dependency) (d : Dict Disposition)
      → ((k : Text)
          → contains k (keys deps) ≡ true
          → is_captured lower_case inventory (lookup k d) ≡ false)
      → AreOpen deps d
  unfolding keys contains
  open_of_absent [] d h = tt
  open_of_absent ((k, x) ∷ rest) d h =
      (h k (ground (arith, text_eq_refl k)), open_of_absent rest d (λ j there. h j (ground arith)))

  -- What the disposition of a device should be, given those of all: its own classification, and for a
  -- device that depends on a controller whether that covers it.
  unfoldable pub disposition_of : Dict Disposition → Outcome → Disposition
  disposition_of all (decided d reason) = d
  disposition_of all (depends x) =
      if is_covered lower_case inventory all x
      then covered_by_controller
      else controller_not_capturable

  -- Every device of a scope has the disposition of its own row, whatever the order of the rows: one
  -- that is excluded, captured or unsupported by itself is so, and one that depends on a controller
  -- is covered exactly when, in the final dispositions, the controller's device is selected, not
  -- excluded and itself captured, and the controller has no redundancy group. No two devices have the
  -- same key.
  pub lookup-dispositions :
      (k : Text) (row : Row)
      → AreDistinct (keys inventory.devices)
      → lookup k inventory.devices ≡ some row
      → let all = dispositions lower_case inventory in
        lookup k all ≡ some (disposition_of all (classify lower_case inventory k row))
  unfolding dispositions disposition_of
  lookup-dispositions k row distinct found = by_outcome (classify lower_case inventory k row) refl
    where
      deps : Dict Dependency
      deps = dependencies_of lower_case inventory inventory.devices

      first : Dict Disposition
      first = decided_of lower_case inventory inventory.devices

      first_at :
          lookup k first ≡ decision lower_case inventory (classify lower_case inventory k row)
      first_at =
          lookup-decided_of lower_case inventory k inventory.devices distinct
          ∙ ap (decision_at lower_case inventory k) found

      deps_at :
          lookup k deps ≡ dependence lower_case inventory (classify lower_case inventory k row)
      deps_at =
          lookup-dependencies_of lower_case inventory k inventory.devices distinct
          ∙ ap (dependence_at lower_case inventory k) found

      open' : AreOpen deps first
      open' = open_of_absent deps first (λ j there.
          ap (is_captured lower_case inventory)
            (lookup-decided_of lower_case inventory j inventory.devices distinct)
          ∙ never_both lower_case inventory j (lookup j inventory.devices) (
              ap is_some
                (sym (lookup-dependencies_of lower_case inventory j inventory.devices distinct))
              ∙ (sym (contains-keys j deps) ∙ there)))

      by_outcome :
          (o : Outcome)
          → classify lower_case inventory k row ≡ o
          → lookup k (settle lower_case inventory deps first)
            ≡ some (disposition_of (settle lower_case inventory deps first) o)
      by_outcome (decided d reason) e =
          lookup-settle_absent k deps first (deps_at ∙ ap (dependence lower_case inventory) e)
          ∙ (first_at ∙ ap (decision lower_case inventory) e)
      by_outcome (depends x) e =
          lookup-settle k deps first x
            (AreDistinct-dependencies_of lower_case inventory inventory.devices distinct) open'
            (deps_at ∙ ap (dependence lower_case inventory) e)
