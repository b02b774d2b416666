-- ===== src/DiffCore/Agreement.antt =====
-- When the comparison of two views by equality_set passes (jobs/diffcore.py).
use nautobot_testsuite.Base.{
  ◌≡◌, sym, ◌∙◌, ◌↔◌, true, Text, contains, gather, is_empty, false, map, refl, ◌&&◌, ◌||◌, not,
  Option, none, some, Dict, lookup, is_some, contains-append, Bool-cases, Option-cases, arith, ◌⊎◌,
  inl, inr, [], ◌++◌, if◌then◌else◌, &&-true,
}
use nautobot_testsuite.Numeric.{Numeric}
use nautobot_testsuite.DiffCore.Values.{Value, obj, Fields, field?, field_keys, value_eq}
use nautobot_testsuite.DiffCore.Config.{Compare, field_cfg}
use nautobot_testsuite.DiffCore.Report.{pass}
use nautobot_testsuite.DiffCore.Equality.{
  get_field, keys_only_in, shared_keys, entry_of, in_tolerance, field_changes, value_changes,
  key_changes, diff_equality_set,
}
use nautobot_testsuite.DiffCore.Verdicts.{
  gather_empty_iff, verdict_iff, only_empty_iff, some_of_is_some, get_field-none,
  contains-field_keys, get_value-some, contains-shared_keys,
}

module _ (n : Numeric) where
  open n use {Number}

  -- Two values of a field that the comparison does not report.
  abbrev pub FieldAgrees : Compare Number → Text → Value Number → Value Number → Type 0
  FieldAgrees c fld a b = (value_eq n a b || in_tolerance n (field_cfg c fld).tolerance a b) ≡ true

  -- Two dict values whose fields all agree, a missing field read as None.
  abbrev pub FieldsAgree : Compare Number → Value Number → Value Number → Type 0
  FieldsAgree c (obj fs) (obj gs) =
      (fld : Text) → FieldAgrees c fld (get_field fld fs) (get_field fld gs)
  FieldsAgree c _ _ = ⊥

  -- What the two views have under one key.
  abbrev pub Agrees : Compare Number → Option (Value Number) → Option (Value Number) → Type 0
  Agrees c none none = Unit {0}
  Agrees c none (some b) = ⊥
  Agrees c (some a) none = c.ignore_removed ≡ true
  Agrees c (some a) (some b) = (value_eq n a b ≡ true) ⊎ FieldsAgree c a b

  field_changes_iff :
      (c : Compare Number) (key : Text) (fs gs : Fields Number) (fld : Text)
      → (is_empty (field_changes n c key fs gs fld) ≡ true)
        ↔ FieldAgrees c fld (get_field fld fs) (get_field fld gs)
  unfolding field_changes is_empty
  field_changes_iff c key fs gs fld = ground arith

  missing_field :
      (c : Compare Number) (fs gs : Fields Number) (fld : Text)
      → field? fld fs ≡ none
      → field? fld gs ≡ none
      → FieldAgrees c fld (get_field fld fs) (get_field fld gs)
  unfolding value_eq
  missing_field c fs gs fld p q = rw (get_field-none fld fs p, get_field-none fld gs q) refl

  fields_agree :
      (c : Compare Number) (key : Text) (fs gs : Fields Number)
      → is_empty (value_changes n c key (obj fs) (obj gs)) ≡ true
      → FieldsAgree c (obj fs) (obj gs)
  unfolding value_changes
  fields_agree c key fs gs h fld =
      elim (Bool-cases (contains fld (field_keys fs ++ field_keys gs))) [
        | inl there ↦ (field_changes_iff c key fs gs fld).0 (
            (gather_empty_iff (field_changes n c key fs gs) (field_keys fs ++ field_keys gs)).0 h
              fld there)
        | inr absent ↦
            missing_field c fs gs fld (ground (arith, spread absent))
              (ground (arith, spread absent))
      ]
    where
      spread :
          contains fld (field_keys fs ++ field_keys gs) ≡ false
          → (is_some (field? fld fs) || is_some (field? fld gs)) ≡ false
      spread e = ground (
        arith,
        contains-append fld (field_keys fs) (field_keys gs),
        contains-field_keys fld fs,
        contains-field_keys fld gs,
      )

  value_changes_iff :
      (c : Compare Number) (key : Text) (a b : Value Number)
      → (is_empty (value_changes n c key a b) ≡ true) ↔ FieldsAgree c a b
  unfolding value_changes is_empty
  value_changes_iff c key (obj fs) (obj gs) = (
    fields_agree c key fs gs,
    λ h.
        (gather_empty_iff (field_changes n c key fs gs) (field_keys fs ++ field_keys gs)).1
          (λ fld _. (field_changes_iff c key fs gs fld).1 (h fld)),
  )
  value_changes_iff c key (obj fs) b = (λ h. cc, λ h. absurd h)
  value_changes_iff c key a b = (λ h. cc, λ h. absurd h)

  -- Under a key of both views nothing is reported when the two values agree.
  key_changes_iff :
      (c : Compare Number) (pre post : Dict (Value Number)) (k : Text) (a b : Value Number)
      → lookup k pre ≡ some a
      → lookup k post ≡ some b
      → (is_empty (key_changes n c pre post k) ≡ true) ↔ Agrees c (some a) (some b)
  unfolding key_changes is_empty
  key_changes_iff c pre post k a b p q =
      rw (get_value-some k pre a p, get_value-some k post b q)
        (elim (Bool-cases (value_eq n a b)) [
          | inl same ↦ rw same (λ _. inl refl, λ _. refl)
          | inr other ↦ rw other (
            λ h. inr ((value_changes_iff c k a b).0 h),
            λ h. elim h [ inl e ↦ cc | inr f ↦ (value_changes_iff c k a b).1 f ],
          )
        ])

  module _ (pre post : Dict (Value Number)) (c : Compare Number) where
    SharedAgree : Type 0
    SharedAgree =
        (k : Text) (a b : Value Number)
        → lookup k pre ≡ some a
        → lookup k post ≡ some b
        → Agrees c (some a) (some b)

    shared_agree :
        is_empty (gather (key_changes n c pre post) (shared_keys pre post)) ≡ true → SharedAgree
    unfolding shared_keys SharedAgree
    shared_agree h k a b p q = (key_changes_iff c pre post k a b p q).0 (
        (gather_empty_iff (key_changes n c pre post) _).0 h k
          (contains-shared_keys k pre post ∙ rw (p, q) refl))

    no_changes :
        SharedAgree → is_empty (gather (key_changes n c pre post) (shared_keys pre post)) ≡ true
    unfolding shared_keys SharedAgree
    no_changes h = (gather_empty_iff (key_changes n c pre post) _).1 λ k there.
        let both = &&-true _ _ (sym (contains-shared_keys k pre post) ∙ there) in
        let (a, p) = some_of_is_some (lookup k pre) both.0 in
        let (b, q) = some_of_is_some (lookup k post) both.1 in
        (key_changes_iff c pre post k a b p q).1 (h k a b p q)

    removed_empty_iff :
        (is_empty (if c.ignore_removed then [] else map (entry_of pre) (keys_only_in pre post))
          ≡ true)
        ↔ ((k : Text)
            → (is_some (lookup k pre) && not (is_some (lookup k post))) ≡ true
            → c.ignore_removed ≡ true)
    unfolding is_empty
    removed_empty_iff = elim (Bool-cases c.ignore_removed) [
      | inl ignored ↦ rw ignored (λ _ _ _. refl, λ _. refl)
      | inr kept ↦ rw kept (
        λ h k gone. cc ((only_empty_iff (entry_of pre) pre post).0 h k),
        λ h. (only_empty_iff (entry_of pre) pre post).1 λ k. ground (arith, h k),
      )
    ]

    NoneNew : Type 0
    NoneNew = (k : Text) → (is_some (lookup k post) && not (is_some (lookup k pre))) ≡ false

    GoneIgnored : Type 0
    GoneIgnored =
        (k : Text)
        → (is_some (lookup k pre) && not (is_some (lookup k post))) ≡ true
        → c.ignore_removed ≡ true

    agree_of_parts :
        NoneNew → GoneIgnored → SharedAgree → (k : Text) → Agrees c (lookup k pre) (lookup k post)
    unfolding NoneNew GoneIgnored SharedAgree
    agree_of_parts new gone same k = elim (Option-cases (lookup k pre)) [
      | inl p ↦ elim (Option-cases (lookup k post)) [
        | inl q ↦ rw (p, q) tt
        | inr (b, q) ↦ absurd (ground (arith, new k))
      ]
      | inr (a, p) ↦ elim (Option-cases (lookup k post)) [
        | inl q ↦ rw (p, q) (gone k (rw (p, q) refl))
        | inr (b, q) ↦ rw (p, q) (same k a b p q)
      ]
    ]

    none_new : ((k : Text) → Agrees c (lookup k pre) (lookup k post)) → NoneNew
    unfolding NoneNew
    none_new h k = elim (Option-cases (lookup k pre)) [
      | inl p ↦ elim (Option-cases (lookup k post)) [
        | inl q ↦ rw (p, q) refl
        | inr (b, q) ↦ absurd (rw (p, q) at (h k))
      ]
      | inr (a, p) ↦ rw p (ground arith)
    ]

    gone_ignored : ((k : Text) → Agrees c (lookup k pre) (lookup k post)) → GoneIgnored
    unfolding GoneIgnored
    gone_ignored h k gone = elim (Option-cases (lookup k pre)) [
      | inl p ↦ absurd (ground arith)
      | inr (a, p) ↦ elim (Option-cases (lookup k post)) [
        | inl q ↦ rw (p, q) at (h k)
        | inr (b, q) ↦ absurd (ground arith)
      ]
    ]

    -- The verdict of equality_set is "pass" exactly when the two views agree under every key: no
    -- key is new, no key is gone unless removals are ignored, and two values under one key are
    -- equal or are dicts whose fields are all equal or within their configured band.
    pub diff_equality_set-pass_iff :
        ((diff_equality_set n pre post c).result ≡ pass)
        ↔ ((k : Text) → Agrees c (lookup k pre) (lookup k post))
    unfolding diff_equality_set
    diff_equality_set-pass_iff = (
      λ h.
          let (new, gone, changes) = (verdict_iff _ _ _).0 h in
          agree_of_parts (unfold NoneNew in (only_empty_iff (entry_of post) post pre).0 new)
            (unfold GoneIgnored in removed_empty_iff.0 gone) (shared_agree changes),
      λ h. (verdict_iff _ _ _).1 (
        (only_empty_iff (entry_of post) post pre).1 (unfold NoneNew in none_new h),
        removed_empty_iff.1 (unfold GoneIgnored in gone_ignored h),
        no_changes (unfold SharedAgree in λ k a b p q. rw (p, q) at (h k)),
      ),
    )
