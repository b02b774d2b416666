-- ===== src/DiffCore/Refined.antt =====
-- The runs that `_text_opcodes` (jobs/diffcore.py) takes from the opcodes, matched again where they replace.
use nautobot_testsuite.Base.{
  ℕ, ◌+◌, ◌-◌, ◌≤◌, ◌≡◌, sym, subst, true, false, List, [], ◌∷◌, map, arith, length, select, Text,
  Bool-cases, inl, inr,
}
use nautobot_testsuite.DiffCore.Runs.{
  Tag, equal, replace, insert, delete, Opcode, Matcher, slice, shifted, is_change, is_refined,
  refine, next_i, next_j, cells_of,
}
use nautobot_testsuite.DiffCore.Scripts.{
  Gap, Gap-refl, Gap-trans, IsMatcher, Script, Script-append, Script-forward, Script-shifted,
  Tagged, Tagged-forward, length-slice,
}

module _ (matcher : Matcher) (lawful : IsMatcher matcher) (a b : List Text) where
  -- The opcodes that a replace run is matched to again.
  abbrev finer : Opcode → List Opcode
  finer o = map (shifted o.i1 o.j1) (matcher false (slice o.i1 o.i2 a) (slice o.j1 o.j2 b))

  refined_Script :
      (o : Opcode)
      → o.i1 ≤ o.i2
      → o.j1 ≤ o.j2
      → o.i2 ≤ length a
      → o.j2 ≤ length b
      → Script a b o.i1 o.j1 (finer o) o.i2 o.j2
  refined_Script o p q r s =
      let found = lawful false (slice o.i1 o.i2 a) (slice o.j1 o.j2 b) in
      let sized =
        subst
          (λ n.
            Script (slice o.i1 o.i2 a) (slice o.j1 o.j2 b) 0 0
              (matcher false (slice o.i1 o.i2 a) (slice o.j1 o.j2 b)) n
              (length (slice o.j1 o.j2 b)))
          (length-slice o.i1 o.i2 a r) found in
      let sized₂ =
        subst
          (λ n.
            Script (slice o.i1 o.i2 a) (slice o.j1 o.j2 b) 0 0
              (matcher false (slice o.i1 o.i2 a) (slice o.j1 o.j2 b)) (o.i2 - o.i1) n)
          (length-slice o.j1 o.j2 b s) sized in
      let x : o.i1 + 0 ≡ o.i1 = omega arith in
      let y : o.j1 + 0 ≡ o.j1 = omega arith in
      let ops = finer o in
      subst (λ n. Script a b n o.j1 ops o.i2 o.j2) x
        (subst (λ n. Script a b (o.i1 + 0) n ops o.i2 o.j2) y
          (Script-shifted a b o.i1 o.i2 o.j1 o.j2 0 0
            (matcher false (slice o.i1 o.i2 a) (slice o.j1 o.j2 b)) p q sized₂))

  -- Matching the replace runs again gives a script of the same lists.
  refine-Script :
      (budget i j : ℕ) (ops : List Opcode)
      → Script a b i j ops (length a) (length b)
      → Script a b i j (refine matcher a b budget ops) (length a) (length b)
  unfolding refine
  refine-Script budget i j [] s = s
  refine-Script budget i j (o ∷ ops) s = elim (Bool-cases (is_refined budget o)) [
    | inl again ↦
        let here = Tagged-forward a b o o.tag s.2 in
        let later = Script-forward a b o.i2 o.j2 (length a) (length b) ops s.3 in
        rw again (
          Script-append a b i j o.i2 o.j2 (length a) (length b) (finer o)
            (refine matcher a b (budget - cells_of o) ops)
            (subst (λ n. Script a b n j (finer o) o.i2 o.j2) s.0
              (subst (λ n. Script a b o.i1 n (finer o) o.i2 o.j2) s.1
                (refined_Script o here.0 here.1 later.0 later.1)))
            (refine-Script (budget - cells_of o) o.i2 o.j2 ops s.3))
    | inr kept ↦ rw kept (s.0, s.1, s.2, refine-Script budget o.i2 o.j2 ops s.3)
  ]

-- Runs from (i, j): before each run and behind the last one the lists run along each other.
abbrev pub AreRuns : List Text → List Text → List Opcode → Type 0
AreRuns a b [] = Unit {0}
AreRuns a b (o ∷ runs) =
    Tagged a b o o.tag × Gap a b o.i2 o.j2 (next_i a b runs) (next_j a b runs) × AreRuns a b runs

Gap-of_Script :
    (a b : List Text) (o : Opcode)
    → Tagged a b o o.tag
    → is_change o ≡ false
    → Gap a b o.i1 o.j1 o.i2 o.j2
unfolding is_change
Gap-of_Script a b o tagged same = by_tag o.tag tagged same
  where
    by_tag :
        (t : Tag)
        → Tagged a b o t
        → (elim t [ equal ↦ false | _ ↦ true ]) ≡ false
        → Gap a b o.i1 o.j1 o.i2 o.j2
    by_tag equal h e = h
    by_tag insert h e = cc
    by_tag delete h e = cc
    by_tag replace h e = cc

-- The changes of a script are runs.
AreRuns-of_Script :
    (a b : List Text) (p q i j : ℕ) (ops : List Opcode)
    → Gap a b p q i j
    → Script a b i j ops (length a) (length b)
    → Gap a b p q (next_i a b (select is_change ops)) (next_j a b (select is_change ops))
      × AreRuns a b (select is_change ops)
unfolding select next_i next_j
AreRuns-of_Script a b p q i j [] g s = (rw (← s.0, ← s.1) g, tt)
AreRuns-of_Script a b p q i j (o ∷ ops) g s =
    let joined =
      subst (λ n. Gap a b p q n o.j1) (sym s.0) (subst (λ n. Gap a b p q i n) (sym s.1) g) in
    elim (Bool-cases (is_change o)) [
      | inl change ↦
          let (gap, rest) =
            AreRuns-of_Script a b o.i2 o.j2 o.i2 o.j2 ops (Gap-refl a b o.i2 o.j2) s.3 in
          rw change (joined, (s.2, gap, rest))
      | inr same ↦ rw same (
          AreRuns-of_Script a b p q o.i2 o.j2 ops
            (Gap-trans a b p q o.i1 o.j1 o.i2 o.j2 joined (Gap-of_Script a b o s.2 same)) s.3)
    ]

pub refined_runs :
    (matcher : Matcher) (a b : List Text)
    → IsMatcher matcher
    → let runs = select is_change (refine matcher a b 2000000 (matcher true a b)) in
      Gap a b 0 0 (next_i a b runs) (next_j a b runs) × AreRuns a b runs
refined_runs matcher a b lawful =
    AreRuns-of_Script a b 0 0 0 0 _ (Gap-refl a b 0 0)
      (refine-Script matcher lawful a b 2000000 0 0 _ (lawful true a b))
