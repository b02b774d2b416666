-- ===== src/Context/Quieting.antt =====
-- That the guard of jobs/context.py keeps the loggers quiet and restores them.
use nautobot_testsuite.Base.{
  ℕ, ◌-◌, ◌≤◌, ◌<◌, ◌≡◌, refl, ◌∙◌, true, false, ◌||◌, List, [], ◌∷◌, arith, ltb, ◌==◌,
  if◌then◌else◌, Text, text_eq, text_eq_refl, eq_of_text_eq, Dict, put, keys, contains,
  contains-keys, lookup-put, Bool-cases, inl, inr, ap, AreDistinct,
}
use nautobot_testsuite.Context.EchoGuard.{
  Guard, new_guard, info_level, set_level, hold_names, hold, restore_levels, release, Trace, start,
  holding, releasing,
}

contains-keys-put :
    {A : Type 0} (k j : Text) (v : A) (d : Dict A)
    → contains j (keys (put k v d)) ≡ (text_eq k j || contains j (keys d))
contains-keys-put k j v d =
    ground (arith, contains-keys j (put k v d), contains-keys j d, lookup-put k j v d)

text_eq_of_distinct :
    (name n : Text) (names : List Text)
    → contains name names ≡ false
    → contains n names ≡ true
    → text_eq name n ≡ false
text_eq_of_distinct name n names fresh there = elim (Bool-cases (text_eq name n)) [
  | inl same ↦ cc (ap (λ m. contains m names) (eq_of_text_eq name n same))
  | inr other ↦ other
]

module _ (original : Text → ℕ) where
  -- Every saved level is the original one.
  abbrev AllOriginal : Dict ℕ → Type 0
  AllOriginal [] = Unit {0}
  AllOriginal ((name, level) ∷ saved) = (level ≡ original name) × AllOriginal saved

  -- The level of a logger that was not saved is the original one.
  abbrev Untouched : Dict ℕ → (Text → ℕ) → Type 0
  Untouched saved levels = (n : Text) → contains n (keys saved) ≡ false → levels n ≡ original n

  AllOriginal-put :
      (name : Text) (level : ℕ) (saved : Dict ℕ)
      → level ≡ original name
      → AllOriginal saved
      → AllOriginal (put name level saved)
  unfolding put
  AllOriginal-put name level [] e h = (e, tt)
  AllOriginal-put name level ((n, l) ∷ saved) e h = elim (Bool-cases (text_eq n name)) [
    | inl same ↦ rw same (rw (eq_of_text_eq n name same) (e, h.1))
    | inr other ↦ rw other (h.0, AllOriginal-put name level saved e h.1)
  ]

  Untouched-set_level :
      (name : Text) (level : ℕ) (saved : Dict ℕ) (levels : Text → ℕ)
      → level ≡ original name
      → ((n : Text)
          → contains n (keys saved) ≡ false
          → text_eq name n ≡ false
          → levels n ≡ original n)
      → Untouched saved (set_level name level levels)
  unfolding set_level
  Untouched-set_level name level saved levels e u n absent = elim (Bool-cases (text_eq name n)) [
    | inl same ↦ rw same (rw (← eq_of_text_eq name n same) e)
    | inr other ↦ rw other (u n absent other)
  ]

  restore_original :
      (saved : Dict ℕ) (levels : Text → ℕ)
      → AllOriginal saved
      → Untouched saved levels
      → (n : Text) → restore_levels saved levels n ≡ original n
  unfolding restore_levels contains keys
  restore_original [] levels h u n = u n refl
  restore_original ((name, level) ∷ saved) levels h u n =
      restore_original saved (set_level name level levels) h.1
        (Untouched-set_level name level saved levels h.0
          (λ m absent other. u m (ground (arith, other))))
        n

  module _ (effective : ℕ → ℕ) (own : effective info_level ≡ info_level) where
    -- The logger passes nothing below INFO on.
    abbrev pub Quiet : List Text → (Text → ℕ) → Type 0
    Quiet names levels = (n : Text) → contains n names ≡ true → info_level ≤ effective (levels n)

    abbrev raise : Text → Guard → Guard
    raise name g = record g {
      saved = put name (g.levels name) g.saved;
      levels =
          if ltb (effective (g.levels name)) info_level
          then set_level name info_level g.levels
          else g.levels;
    }

    raise_other :
        (name n : Text) (g : Guard) → text_eq name n ≡ false → (raise name g).levels n ≡ g.levels n
    unfolding set_level
    raise_other name n g h = ground arith

    raise_quiet : (name : Text) (g : Guard) → info_level ≤ effective ((raise name g).levels name)
    unfolding set_level
    raise_quiet name g = elim (Bool-cases (ltb (effective (g.levels name)) info_level)) [
      | inl loud ↦ rw loud (rw (text_eq_refl name) (rw own (omega arith)))
      | inr quiet ↦ rw quiet (ground (arith, quiet))
    ]

    levels-hold_names :
        (names : List Text) (n : Text) (g : Guard)
        → contains n names ≡ false
        → (hold_names effective names g).levels n ≡ g.levels n
    unfolding hold_names contains
    levels-hold_names [] n g h = refl
    levels-hold_names (name ∷ names) n g h =
        levels-hold_names names n (raise name g) (ground arith)
        ∙ raise_other name n g (ground arith)

    hold_names-Quiet :
        (names : List Text) (g : Guard)
        → AreDistinct names
        → Quiet names (hold_names effective names g).levels
    unfolding hold_names contains
    hold_names-Quiet [] g d n h = cc
    hold_names-Quiet (name ∷ names) g d n h = elim (Bool-cases (text_eq name n)) [
      | inl same ↦
          rw (← eq_of_text_eq name n same)
            (rw (levels-hold_names names name (raise name g) d.0) (raise_quiet name g))
      | inr other ↦ hold_names-Quiet names (raise name g) d.1 n (ground (arith, other))
    ]

    -- The guard's records are right: the saved levels and the loggers that are not saved.
    abbrev Kept : Guard → Type 0
    Kept g = AllOriginal g.saved × Untouched g.saved g.levels

    hold_names-Kept :
        (names : List Text) (g : Guard)
        → AreDistinct names
        → ((n : Text) → contains n names ≡ true → contains n (keys g.saved) ≡ false)
        → Kept g
        → Kept (hold_names effective names g)
    unfolding hold_names contains
    hold_names-Kept [] g d fresh k = k
    hold_names-Kept (name ∷ names) g d fresh k =
        hold_names-Kept names (raise name g) d.1
          (λ n there. ground (
            arith,
            contains-keys-put name n (g.levels name) g.saved,
            text_eq_of_distinct name n names d.0 there,
            fresh n (ground arith),
          ))
          (
            AllOriginal-put name (g.levels name) g.saved
                (k.1 name (fresh name (ground (arith, text_eq_refl name)))) k.0,
            λ n absent.
                raise_other name n g
                  (ground (arith, contains-keys-put name n (g.levels name) g.saved))
                ∙ k.1 n (ground (arith, contains-keys-put name n (g.levels name) g.saved)),
          )

    -- No read holds the guard and every level is the original one, or some read holds it, the saved
    -- levels are right and the guarded loggers are quiet.
    pub data IsConsistent (names : List Text) (g : Guard) : Type 0 where
      free :
          g.depth ≡ 0 → g.saved ≡ [] → ((n : Text) → g.levels n ≡ original n) → IsConsistent names g
      in_flight :
          0 < g.depth
          → AllOriginal g.saved
          → Untouched g.saved g.levels
          → Quiet names g.levels
          → IsConsistent names g

    hold-IsConsistent :
        (names : List Text) (g : Guard)
        → AreDistinct names
        → IsConsistent names g
        → IsConsistent names (hold effective names g)
    unfolding hold
    hold-IsConsistent names g d (free zero_depth none_saved same) =
        let (right, others) =
          hold_names-Kept names g d (λ n there. rw none_saved (unfold contains keys in refl))
            (rw none_saved tt, λ n absent. same n) in
        let first : (g.depth == 0) ≡ true = ground arith in
        rw first (in_flight (omega arith) right others (hold_names-Quiet names g d))
    hold-IsConsistent names g d (in_flight deep right others quiet) =
        let first : (g.depth == 0) ≡ false = ground arith in
        rw first (in_flight (omega arith) right others quiet)

    release-IsConsistent :
        (names : List Text) (g : Guard)
        → 0 < g.depth
        → IsConsistent names g
        → IsConsistent names (release g)
    unfolding release
    release-IsConsistent names g held (free zero_depth none_saved same) = absurd (omega arith)
    release-IsConsistent names g held (in_flight deep right others quiet) =
        elim (Bool-cases (g.depth - 1 == 0)) [
          | inl last ↦
              rw last
                (free (ground (arith, last)) refl (restore_original g.saved g.levels right others))
          | inr more ↦ rw more (in_flight (ground (arith, more)) right others quiet)
        ]

    Trace-IsConsistent :
        (names : List Text) {g h : Guard}
        → AreDistinct names
        → IsConsistent names g
        → Trace effective names g h
        → IsConsistent names h
    Trace-IsConsistent names d k start = k
    Trace-IsConsistent names d k (holding t) =
        hold-IsConsistent names _ d (Trace-IsConsistent names d k t)
    Trace-IsConsistent names d k (releasing t held) =
        release-IsConsistent names _ held (Trace-IsConsistent names d k t)

module _ (effective : ℕ → ℕ) (own : effective info_level ≡ info_level) (names : List Text)
    (distinct : AreDistinct names) (original : Text → ℕ) (g : Guard)
    (trace : Trace effective names (new_guard original) g) where
  consistent : IsConsistent original effective own names g
  consistent =
      Trace-IsConsistent original effective own names distinct
        (IsConsistent.free refl refl (λ n. refl)) trace

  -- However the redacted reads of several threads interleave: while one is in flight no guarded
  -- logger passes a DEBUG message on, and when none is, every logger has the level that it had
  -- before.
  pub guard_correct :
      (0 < g.depth → Quiet original effective own names g.levels)
      × (g.depth ≡ 0 → (n : Text) → g.levels n ≡ original n)
  guard_correct = by_state consistent
    where
      by_state :
          IsConsistent original effective own names g
          → (0 < g.depth → Quiet original effective own names g.levels)
            × (g.depth ≡ 0 → (n : Text) → g.levels n ≡ original n)
      by_state (IsConsistent.free zero_depth none_saved same) =
          (λ deep. absurd (omega arith), λ _. same)
      by_state (IsConsistent.in_flight deep right others quiet) =
          (λ _. quiet, λ zero_depth. absurd (omega arith))
