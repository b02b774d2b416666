-- ===== src/Registry/Selection.antt =====
-- What a selection of checks resolves to (jobs/registry.py, `parse_check_ids` and `checks_for`).
use nautobot_testsuite.Base.{
  ◌≡◌, refl, sym, ap, ◌∙◌, subst, Bool, true, false, ◌&&◌, not, Option, none, some, List, [], ◌∷◌,
  ◌++◌, map, if◌then◌else◌, arith, Text, text_eq, eq_of_text_eq, text_eq_refl, Dict, lookup, keys,
  contains, contains-append, contains-keys, contains-select, contains-sorted_set, is_some, is_empty,
  select, sorted_set, AreDistinct, Bool-cases, inl, inr,
}
use nautobot_testsuite.Registry.Checks.{
  CheckDef, registered, duplicate_id, register, register_all, resolved, resolve_all, checks_for,
  only, every_check, unknown_ids, parse_check_ids, tokens, from_keys,
}
use nautobot_testsuite.DiffCore.Verdicts.{is_empty_iff}

contains-from_keys : (k : Text) (xs : List Text) → contains k (from_keys xs) ≡ contains k xs
unfolding contains from_keys
contains-from_keys k [] = refl
contains-from_keys k (x ∷ xs) =
    ground
      (arith, contains-select (λ y. not (text_eq x y)) k (from_keys xs), contains-from_keys k xs)

AreDistinct-select : (p : Text → Bool) (xs : List Text) → AreDistinct xs → AreDistinct (select p xs)
unfolding select
AreDistinct-select p [] h = tt
AreDistinct-select p (x ∷ xs) (fresh, rest) = elim (Bool-cases (p x)) [
  | inl e ↦ rw e (contains-select p x xs ∙ ground (arith, fresh), AreDistinct-select p xs rest)
  | inr e ↦ rw e (AreDistinct-select p xs rest)
]

AreDistinct-from_keys : (xs : List Text) → AreDistinct (from_keys xs)
unfolding from_keys
AreDistinct-from_keys [] = tt
AreDistinct-from_keys (x ∷ xs) = (
  contains-select (λ y. not (text_eq x y)) x (from_keys xs) ∙ ground (arith, text_eq_refl x),
  AreDistinct-select (λ y. not (text_eq x y)) (from_keys xs) (AreDistinct-from_keys xs),
)

module _ {N C : Type 0} where
  -- Every check is registered under its id.
  abbrev pub IsKeyed : Dict (CheckDef N C) → Type 0
  IsKeyed [] = Unit {0}
  IsKeyed ((k, check) ∷ checks) = (check.id ≡ k) × IsKeyed checks

  append-IsKeyed :
      (check : CheckDef N C) (checks : Dict (CheckDef N C))
      → IsKeyed checks
      → IsKeyed (checks ++ (check.id, check) ∷ [])
  append-IsKeyed check [] h = (refl, tt)
  append-IsKeyed check ((k, c) ∷ checks) (here, rest) = (here, append-IsKeyed check checks rest)

  register_all-IsKeyed :
      (all_checks : List (CheckDef N C)) (checks reg : Dict (CheckDef N C))
      → register_all all_checks checks ≡ registered reg
      → IsKeyed checks
      → IsKeyed reg
  unfolding register_all register
  register_all-IsKeyed [] checks reg e h = let same : checks ≡ reg = cc in subst IsKeyed same h
  register_all-IsKeyed (check ∷ rest) checks reg e h =
      elim (Bool-cases (is_some (lookup check.id checks))) [
        | inl there ↦ absurd (
            let bad : duplicate_id check.id ≡ registered reg =
              sym (rw (register_all, there) refl) ∙ e in
            cc)
        | inr fresh ↦
            register_all-IsKeyed rest (checks ++ (check.id, check) ∷ []) reg
              (sym (rw (register_all, fresh) refl) ∙ e) (append-IsKeyed check checks h)
      ]

  lookup-IsKeyed :
      (k : Text) (checks : Dict (CheckDef N C)) (check : CheckDef N C)
      → IsKeyed checks
      → lookup k checks ≡ some check
      → check.id ≡ k
  unfolding lookup
  lookup-IsKeyed k [] check h e = absurd cc
  lookup-IsKeyed k ((j, c) ∷ checks) check (here, rest) e = elim (Bool-cases (text_eq j k)) [
    | inl same ↦
        let found : some c ≡ some check = sym (rw same refl) ∙ e in
        let j_is_k = eq_of_text_eq j k same in cc
    | inr other ↦ lookup-IsKeyed k checks check rest (sym (rw other refl) ∙ e)
  ]

  -- Whether the check that an id finds belongs to a platform.
  unfoldable pub is_for : Text → Option (CheckDef N C) → Bool
  is_for platform none = false
  is_for platform (some check) = text_eq check.platform platform

  abbrev pub ids_of : List (CheckDef N C) → List Text
  ids_of checks = map (λ c. c.id) checks

  contains-resolved :
      (platform id k : Text) (checks : Dict (CheckDef N C))
      → IsKeyed checks
      → contains k (ids_of (resolved platform checks id))
        ≡ (text_eq id k && is_for platform (lookup k checks))
  unfolding resolved contains
  contains-resolved platform id k checks h = at (lookup id checks) refl
    where
      at :
          (found : Option (CheckDef N C))
          → lookup id checks ≡ found
          → contains k (
              ids_of (elim found [
                | none ↦ []
                | some check ↦ if text_eq check.platform platform then check ∷ [] else []
              ]))
            ≡ (text_eq id k && is_for platform (lookup k checks))
      at none e = elim (Bool-cases (text_eq id k)) [
        | inl same ↦
            let gone : lookup k checks ≡ none =
              sym (ap (λ j. lookup j checks) (eq_of_text_eq id k same)) ∙ e in
            rw (same, gone) (unfold is_for in refl)
        | inr other ↦ rw other refl
      ]
      at (some check) e = elim (Bool-cases (text_eq id k)) [
        | inl same ↦
            let here : lookup k checks ≡ some check =
              sym (ap (λ j. lookup j checks) (eq_of_text_eq id k same)) ∙ e in
            let named = lookup-IsKeyed id checks check h e in
            rw (same, here) (unfold is_for in ground (arith, same, named))
        | inr other ↦
            let named = lookup-IsKeyed id checks check h e in
            rw (named, other) (ground (arith, other, named))
      ]

  ids_of-append : (xs ys : List (CheckDef N C)) → ids_of (xs ++ ys) ≡ ids_of xs ++ ids_of ys
  ids_of-append [] ys = refl
  ids_of-append (x ∷ xs) ys = ap (λ zs. x.id ∷ zs) (ids_of-append xs ys)

  contains-resolve_all :
      (platform k : Text) (checks : Dict (CheckDef N C)) (ids : List Text)
      → IsKeyed checks
      → contains k (ids_of (resolve_all platform checks ids))
        ≡ (contains k ids && is_for platform (lookup k checks))
  unfolding resolve_all contains
  contains-resolve_all platform k checks [] h = refl
  contains-resolve_all platform k checks (id ∷ ids) h =
      ap (contains k)
        (ids_of-append (resolved platform checks id) (resolve_all platform checks ids))
      ∙ (contains-append k (ids_of (resolved platform checks id))
            (ids_of (resolve_all platform checks ids))
          ∙ ground (
            arith,
            contains-resolved platform id k checks h,
            contains-resolve_all platform k checks ids h,
          ))

  checks_for_iff :
      (platform k : Text) (ids : Option (List Text)) (checks : Dict (CheckDef N C))
      → IsKeyed checks
      → contains k (ids_of (checks_for platform ids checks)) ≡ (
          (elim ids [ none ↦ true | some wanted ↦ contains k wanted ])
          && is_for platform (lookup k checks))
  unfolding checks_for is_for
  checks_for_iff platform k none checks h =
      contains-resolve_all platform k checks (sorted_set (keys checks)) h
      ∙ rw (contains-sorted_set k (keys checks), contains-keys k checks) (present (lookup k checks))
    where
      present :
          (found : Option (CheckDef N C))
          → (is_some found && is_for platform found) ≡ is_for platform found
      present none = refl
      present (some check) = refl
  checks_for_iff platform k (some ids) checks h = contains-resolve_all platform k checks ids h

  only_lem :
      (raw : Text) (checks : Dict (CheckDef N C)) (ids : List Text)
      → parse_check_ids raw checks ≡ only ids
      → (ids ≡ from_keys (tokens raw))
        × ((k : Text) → contains k ids ≡ true → is_some (lookup k checks) ≡ true)
  unfolding parse_check_ids
  only_lem raw checks ids e =
      let wanted = from_keys (tokens raw) in
      let unknown = sorted_set (select (λ id. not (contains id (keys checks))) wanted) in
      elim (Bool-cases (is_empty wanted)) [
        | inl none_given ↦ absurd (
            let bad : every_check ≡ only ids = sym (rw (parse_check_ids, none_given) refl) ∙ e in
            cc)
        | inr given ↦ elim (Bool-cases (is_empty unknown)) [
          | inl known ↦
              let same : only wanted ≡ only ids =
                sym (rw (parse_check_ids, given, known) refl) ∙ e in
              (
                cc,
                λ k there.
                    let asked : contains k wanted ≡ true =
                      (let ids_are : ids ≡ wanted = cc in rw (← ids_are) there) in
                    ground (
                      arith,
                      (is_empty_iff unknown).0 known k,
                      contains-sorted_set k (select (λ id. not (contains id (keys checks))) wanted),
                      contains-select (λ id. not (contains id (keys checks))) k wanted,
                      contains-keys k checks,
                      asked,
                    ),
              )
          | inr some_unknown ↦ absurd (
              let bad : unknown_ids unknown (sorted_set (keys checks)) ≡ only ids =
                sym (rw (parse_check_ids, given, some_unknown) refl) ∙ e in
              cc)
        ]
      ]

  -- A selection that parse_check_ids accepts names each check once and only registered ones, and it
  -- resolves, for each platform, to exactly the checks of that platform whose id is one of the
  -- tokens of the text. The registry is one that the registration of some checks has built.
  pub checks_for-parse_check_ids :
      (checks : List (CheckDef N C)) (reg : Dict (CheckDef N C)) (raw : Text) (ids : List Text)
      (platform : Text)
      → register_all checks [] ≡ registered reg
      → parse_check_ids raw reg ≡ only ids
      → AreDistinct ids
        × ((k : Text) → contains k ids ≡ true → is_some (lookup k reg) ≡ true)
        × ((k : Text)
            → contains k (ids_of (checks_for platform (some ids) reg))
              ≡ (contains k (tokens raw) && is_for platform (lookup k reg)))
  checks_for-parse_check_ids checks reg raw ids platform built parsed =
      let (wanted, known) = only_lem raw reg ids parsed in
      (
        subst AreDistinct (sym wanted) (AreDistinct-from_keys (tokens raw)),
        known,
        λ k.
            checks_for_iff platform k (some ids) reg (register_all-IsKeyed checks [] reg built tt)
            ∙ ap (λ there. there && is_for platform (lookup k reg))
                (ap (contains k) wanted ∙ contains-from_keys k (tokens raw)),
      )
