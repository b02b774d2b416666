-- ===== src/DiffCore/Settled.antt =====
-- That a run stays between its neighbours where its block slides (jobs/diffcore.py, `_text_opcodes`).
use nautobot_testsuite.Base.{
  ℕ, ◌+◌, ◌-◌, ◌≡◌, refl, sym, ap, ◌∙◌, subst, List, arith, get_elem?, Text,
}
use nautobot_testsuite.DiffCore.Runs.{
  Tag, equal, replace, insert, delete, Opcode, slide_block, moved, next_i, next_j, settled,
}
use nautobot_testsuite.DiffCore.Scripts.{Gap, Tagged}
use nautobot_testsuite.DiffCore.Slides.{Placed, slide_block-Placed}

Gap-sym : (a b : List Text) (i j i' j' : ℕ) → Gap a b i j i' j' → Gap b a j i j' i'
Gap-sym a b i j i' j' g = record {
  i_forward = g.j_forward;
  j_forward = g.i_forward;
  same_size = sym g.same_size;
  same_lines = λ k below. sym (g.same_lines k (omega (arith, g.same_size)));
}

line_at :
    (xs ys : List Text) {p q p' q' : ℕ}
    → p ≡ p'
    → q ≡ q'
    → get_elem? xs p ≡ get_elem? ys q
    → get_elem? xs p' ≡ get_elem? ys q'
line_at xs ys e f h = sym (ap (get_elem? xs) e) ∙ (h ∙ ap (get_elem? ys) f)

-- A block of xs between two stretches where xs and ys run along each other, and where it may move to.
module _ (xs ys : List Text) (a b e f w start other : ℕ) where
  Placed-of_Gap :
      Gap ys xs b a other start → Gap ys xs other (start + w) f e → Placed xs ys a b e w start
  Placed-of_Gap g h = record {
    above_low = g.j_forward;
    below_high = h.j_forward;
    lines_before = λ k above below. sym (
        line_at ys xs (omega arith) (omega arith)
          (g.same_lines (k - a) (omega (arith, g.same_size, g.i_forward))));
    lines_behind = λ k from below. sym (
        line_at ys xs (omega (arith, g.same_size, g.j_forward)) (omega arith)
          (h.same_lines (k - (start + w)) (omega (arith, h.same_size))));
  }

  Gap-of_Placed :
      (s : ℕ)
      → Gap ys xs b a other start
      → Gap ys xs other (start + w) f e
      → Placed xs ys a b e w s
      → Gap ys xs b a (other + s - start) s × Gap ys xs (other + s - start) (s + w) f e
  Gap-of_Placed s g h p = (
    record {
      i_forward = omega (arith, g.same_size, p.above_low, g.j_forward);
      j_forward = p.above_low;
      same_size = omega (arith, g.same_size, p.above_low, g.j_forward);
      same_lines = λ k below. sym (
          line_at xs ys refl (omega arith)
            (p.lines_before (a + k) (omega arith) (omega (arith, g.same_size, g.j_forward))));
    },
    record {
      i_forward = omega (arith, g.same_size, h.same_size, p.above_low, p.below_high, g.j_forward);
      j_forward = p.below_high;
      same_size = omega (arith, g.same_size, h.same_size, p.above_low, g.j_forward);
      same_lines = λ k below. sym (
          line_at xs ys refl (omega (arith, g.same_size, p.above_low, g.j_forward)) (
            p.lines_behind (s + w + k) (omega arith)
              (omega (arith, h.same_size, g.same_size, p.above_low, g.j_forward))));
    },
  )

-- A run between the position (i, j) and the next run, which starts at (ni, nj).
abbrev Run : List Text → List Text → ℕ → ℕ → Opcode → ℕ → ℕ → Type 0
Run old new i j o ni nj =
    Gap old new i j o.i1 o.j1 × Tagged old new o o.tag × Gap old new o.i2 o.j2 ni nj

Gap-at :
    (a b : List Text) {i j i' j' m n m' n' : ℕ}
    → i ≡ m
    → j ≡ n
    → i' ≡ m'
    → j' ≡ n'
    → Gap a b i j i' j'
    → Gap a b m n m' n'
Gap-at a b e f e' f' g = record {
  i_forward = omega (arith, g.i_forward, e, e');
  j_forward = omega (arith, g.j_forward, f, f');
  same_size = omega (arith, g.same_size, e, e', f, f');
  same_lines = λ k below.
      line_at a b (omega (arith, e)) (omega (arith, f)) (g.same_lines k (omega (arith, e, e')));
}

module _ (old new : List Text) (i j : ℕ) (o : Opcode) (ni nj : ℕ) where
  moved_insert-Run :
      o.tag ≡ insert
      → Run old new i j o ni nj
      → Run old new i j (moved o.j1 (slide_block new o.j1 (o.j2 - o.j1) j nj) o) ni nj
  unfolding moved
  moved_insert-Run e (g, tagged, h) =
      let here = subst (Tagged old new o) e tagged in
      let w = o.j2 - o.j1 in
      let h₂ = Gap-at old new (sym here.0) (omega (arith, here.1)) refl refl h in
      let s = slide_block new o.j1 w j nj in
      let p =
        slide_block-Placed new old j i nj w o.j1
          (Placed-of_Gap new old j i nj ni w o.j1 o.i1 g h₂) in
      let (before, behind) = Gap-of_Placed new old j i nj ni w o.j1 o.i1 s g h₂ p in
      (
        Gap-at old new refl refl refl (omega arith) before,
        subst (Tagged old new (moved o.j1 s o)) (sym e)
            (omega (arith, here.0), omega (arith, here.1)),
        Gap-at old new (omega (arith, here.0)) (omega (arith, here.1)) refl refl behind,
      )

  moved_delete-Run :
      o.tag ≡ delete
      → Run old new i j o ni nj
      → Run old new i j (moved o.i1 (slide_block old o.i1 (o.i2 - o.i1) i ni) o) ni nj
  unfolding moved
  moved_delete-Run e (g, tagged, h) =
      let here = subst (Tagged old new o) e tagged in
      let w = o.i2 - o.i1 in
      let g₂ = Gap-sym old new i j o.i1 o.j1 g in
      let h₂ =
        Gap-at new old (sym here.0) (omega (arith, here.1)) refl refl
          (Gap-sym old new o.i2 o.j2 ni nj h) in
      let s = slide_block old o.i1 w i ni in
      let p =
        slide_block-Placed old new i j ni w o.i1
          (Placed-of_Gap old new i j ni nj w o.i1 o.j1 g₂ h₂) in
      let (before, behind) = Gap-of_Placed old new i j ni nj w o.i1 o.j1 s g₂ h₂ p in
      (
        Gap-at old new refl refl (omega arith) refl (Gap-sym new old _ _ _ _ before),
        subst (Tagged old new (moved o.i1 s o)) (sym e)
            (omega (arith, here.0), omega (arith, here.1)),
        Gap-at old new (omega (arith, here.1)) (omega (arith, here.0)) refl refl
            (Gap-sym new old _ _ _ _ behind),
      )

pub settled-Run :
    (old new : List Text) (i j : ℕ) (o : Opcode) (runs : List Opcode)
    → Run old new i j o (next_i old new runs) (next_j old new runs)
    → Run old new i j (settled old new i j o runs) (next_i old new runs) (next_j old new runs)
unfolding settled
settled-Run old new i j o runs r = by_tag o.tag refl
  where
    by_tag :
        (t : Tag)
        → o.tag ≡ t
        → Run old new i j
            (elim t [
              | insert ↦ moved o.j1 (slide_block new o.j1 (o.j2 - o.j1) j (next_j old new runs)) o
              | delete ↦ moved o.i1 (slide_block old o.i1 (o.i2 - o.i1) i (next_i old new runs)) o
              | _ ↦ o
            ])
            (next_i old new runs)
            (next_j old new runs)
    by_tag insert e = moved_insert-Run old new i j o _ _ e r
    by_tag delete e = moved_delete-Run old new i j o _ _ e r
    by_tag replace e = r
    by_tag equal e = r

-- Applying the runs to the old lines, from line i on.
