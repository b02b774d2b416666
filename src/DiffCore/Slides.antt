-- ===== src/DiffCore/Slides.antt =====
-- That sliding a block keeps what the runs add up to (jobs/diffcore.py, `_text_opcodes`).
use nautobot_testsuite.Base.{
  ℕ, zero, suc, ◌+◌, ◌-◌, ◌≤◌, ◌<◌, ◌≡◌, sym, ap, ◌∙◌, Bool, true, false, Option, none, some, List,
  arith, if◌then◌else◌, get_elem?, Text, text_eq, eq_of_text_eq, Bool-cases, inl, inr,
}
use nautobot_testsuite.DiffCore.Runs.{
  same_line, rank_at, rank_lt, slide_up, slide_down, slide_block,
}
use native.Mathlib.Decide.{dec_lt}

same_line_lem :
    (lines : List Text) (p q : ℕ)
    → same_line lines p q ≡ true
    → get_elem? lines p ≡ get_elem? lines q
unfolding same_line
same_line_lem lines p q h = by_lines (get_elem? lines p) (get_elem? lines q) h
  where
    by_lines :
        (x y : Option Text)
        → (elim x [ none ↦ false | some s ↦ elim y [ none ↦ false | some t ↦ text_eq s t ] ]) ≡ true
        → x ≡ y
    by_lines none y e = cc
    by_lines (some s) none e = cc
    by_lines (some s) (some t) e = ap some (eq_of_text_eq s t e)

-- A block of w lines of xs, and the lines of ys that the unchanged lines around it equal: from a on
-- before the block and up to e behind it, where ys goes on from b.
module _ (xs ys : List Text) (a b e w : ℕ) where
  pub record Placed (start : ℕ) : Type 0 where
    pub above_low : a ≤ start
    pub below_high : start + w ≤ e
    pub lines_before : (k : ℕ) → a ≤ k → k < start → get_elem? xs k ≡ get_elem? ys (k - a + b)
    pub lines_behind :
        (k : ℕ) → start + w ≤ k → k < e → get_elem? xs k ≡ get_elem? ys (k - w - a + b)

  Placed-up :
      (start : ℕ)
      → Placed (suc start)
      → a ≤ start
      → get_elem? xs start ≡ get_elem? xs (start + w)
      → Placed start
  Placed-up start p low same = record {
    above_low = low;
    below_high = omega (arith, p.below_high);
    lines_before = λ k above below. p.lines_before k above (omega arith);
    lines_behind = λ k from below. elim (dec_lt (start + w) k) [
      | yes further ↦ p.lines_behind k (omega arith) below
      | no here ↦
          let at_end : k ≡ start + w = omega arith in
          let there : start - a + b ≡ start + w - w - a + b = omega arith in
          rw (at_end, ← there) (sym same ∙ p.lines_before start low (omega arith))
    ];
  }

  Placed-down :
      (start : ℕ)
      → Placed start
      → start + w < e
      → get_elem? xs start ≡ get_elem? xs (start + w)
      → Placed (start + 1)
  Placed-down start p room same = record {
    above_low = omega (arith, p.above_low);
    below_high = omega arith;
    lines_before = λ k above below. elim (dec_lt k start) [
      | yes earlier ↦ p.lines_before k above earlier
      | no here ↦
          let at_start : k ≡ start = omega arith in
          let there : start + w - w - a + b ≡ start - a + b = omega arith in
          rw (at_start, ← there) (same ∙ p.lines_behind (start + w) (omega arith) room)
    ];
    lines_behind = λ k from below. p.lines_behind k (omega arith) below;
  }

  slide_up-Placed :
      (room start : ℕ) → a + room ≤ start → Placed start → Placed (slide_up xs w room start)
  unfolding slide_up
  slide_up-Placed zero start h p = p
  slide_up-Placed (suc room) start h p =
      elim (Bool-cases (same_line xs (start - 1) (start - 1 + w))) [
        | inl same ↦
            let back : suc (start - 1) ≡ start = omega arith in
            rw same (
              slide_up-Placed room (start - 1) (omega arith) (
                Placed-up (start - 1) (rw back p) (omega arith)
                  (same_line_lem xs (start - 1) (start - 1 + w) same)))
        | inr other ↦ rw other p
      ]

  slide_down-Placed :
      (room start best : ℕ) (best_rank : Bool × ℕ)
      → start + w + room ≤ e
      → Placed start
      → Placed best
      → Placed (slide_down xs w room start best best_rank)
  unfolding slide_down
  slide_down-Placed zero start best best_rank h p q = q
  slide_down-Placed (suc room) start best best_rank h p q =
      elim (Bool-cases (same_line xs start (start + w))) [
        | inl same ↦
            let next =
              Placed-down start p (omega arith) (same_line_lem xs start (start + w) same) in
            let better = rank_lt (rank_at xs (start + 1)) best_rank in
            rw same (
              slide_down-Placed room (start + 1) (if better then start + 1 else best) _
                (omega arith) next (chosen better next q))
        | inr other ↦ rw other q
      ]
    where
      chosen : {m n : ℕ} (better : Bool) → Placed m → Placed n → Placed (if better then m else n)
      chosen true p q = p
      chosen false p q = q

  -- Wherever _slide_block puts the block, the lines around it are the same.
  pub slide_block-Placed : (start : ℕ) → Placed start → Placed (slide_block xs start w a e)
  unfolding slide_block
  slide_block-Placed start p =
      let top = slide_up-Placed (start - a) start (omega (arith, p.above_low)) p in
      slide_down-Placed _ _ _ _ (omega (arith, top.below_high)) top top
