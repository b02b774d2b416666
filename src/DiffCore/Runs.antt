-- ===== src/DiffCore/Runs.antt =====
-- `_slide_block` and `_text_opcodes` (jobs/diffcore.py): the runs of a line diff. The line match of
-- difflib is a parameter.
use nautobot_testsuite.Base.{
  ℕ, zero, suc, ◌+◌, ◌-◌, ◌*◌, Bool, true, false, ◌&&◌, ◌||◌, none, some, List, [], ◌∷◌, ◌++◌, map,
  ltb, leb, if◌then◌else◌, length, get_elem?, take, drop, select, Text, text_eq, strip,
}
use nautobot_testsuite.DiffCore.Stanzas.{indent_of, is_separator}

pub data Tag : Type 0 where
  equal replace insert delete : Tag

-- (tag, i1, i2, j1, j2): old_lines[i1:i2] becomes new_lines[j1:j2].
pub record Opcode : Type 0 where
  pub tag : Tag
  pub i1 : ℕ
  pub i2 : ℕ
  pub j1 : ℕ
  pub j2 : ℕ

-- SequenceMatcher(None, a, b, autojunk).get_opcodes()
abbrev pub Matcher : Type 0
Matcher = Bool → List Text → List Text → List Opcode

-- lines[start:stop]
abbrev pub slice : ℕ → ℕ → List Text → List Text
slice start stop lines = take (stop - start) (drop start lines)

-- lines[a] == lines[b]
unfoldable pub same_line : List Text → ℕ → ℕ → Bool
same_line lines a b = elim (get_elem? lines a) [
  | none ↦ false
  | some x ↦ elim (get_elem? lines b) [ none ↦ false | some y ↦ text_eq x y ]
]

-- _stanza_start_rank(lines[start]), as the pair that Python compares
unfoldable pub rank_at : List Text → ℕ → Bool × ℕ
unfolding indent_of is_separator strip
rank_at lines start = elim (get_elem? lines start) [
  | none ↦ (true, 0)
  | some line ↦ (is_separator (strip line), indent_of line)
]

-- a < b on such pairs
unfoldable pub rank_lt : Bool × ℕ → Bool × ℕ → Bool
rank_lt (a, m) (b, n) = if a then b && ltb m n else b || ltb m n

-- while start > low and lines[start - 1] == lines[stop - 1]; `room` is start - low
unfoldable pub slide_up : List Text → ℕ → ℕ → ℕ → ℕ
unfolding same_line
slide_up lines width zero start = start
slide_up lines width (suc room) start =
    let further = slide_up lines width room (start - 1) in
    if same_line lines (start - 1) (start - 1 + width) then further else start

-- while stop < high and lines[start] == lines[stop]; `room` is high - stop
unfoldable pub slide_down : List Text → ℕ → ℕ → ℕ → ℕ → Bool × ℕ → ℕ
unfolding same_line rank_at rank_lt
slide_down lines width zero start best best_rank = best
slide_down lines width (suc room) start best best_rank =
    let rank = rank_at lines (start + 1) in
    let better = rank_lt rank best_rank in
    let further =
      slide_down lines width room (start + 1) (if better then start + 1 else best)
        (if better then rank else best_rank) in
    if same_line lines start (start + width) then further else best

-- _slide_block, with the width stop - start
unfoldable pub slide_block : List Text → ℕ → ℕ → ℕ → ℕ → ℕ
unfolding slide_up slide_down rank_at
slide_block lines start width low high =
    let top = slide_up lines width (start - low) start in
    slide_down lines width (high - (top + width)) top top (rank_at lines top)

-- The opcode of two slices, back in the whole lists.
unfoldable pub shifted : ℕ → ℕ → Opcode → Opcode
shifted i j o = record { tag = o.tag; i1 = i + o.i1; i2 = i + o.i2; j1 = j + o.j1; j2 = j + o.j2 }

unfoldable pub cells_of : Opcode → ℕ
cells_of o = (o.i2 - o.i1) * (o.j2 - o.j1)

-- tag == "replace" and 1 < cells <= min(budget, _TEXT_REFINE_CELLS)
unfoldable pub is_refined : ℕ → Opcode → Bool
unfolding cells_of
is_refined budget o =
    (elim o.tag [ replace ↦ true | _ ↦ false ])
    && ltb 1 (cells_of o)
    && leb (cells_of o) budget
    && leb (cells_of o) 250000

unfoldable pub is_change : Opcode → Bool
is_change o = elim o.tag [ equal ↦ false | _ ↦ true ]

-- run[1:] = [i1 + shift, ...], where the block moves from one start to another
unfoldable pub moved : ℕ → ℕ → Opcode → Opcode
moved from to o = record {
  tag = o.tag;
  i1 = o.i1 + to - from;
  i2 = o.i2 + to - from;
  j1 = o.j1 + to - from;
  j2 = o.j2 + to - from;
}

module _ (old_lines new_lines : List Text) where
  -- after[1] if after else len(old_lines), and after[3] if after else len(new_lines)
  unfoldable pub next_i : List Opcode → ℕ
  next_i [] = length old_lines
  next_i (o ∷ runs) = o.i1

  unfoldable pub next_j : List Opcode → ℕ
  next_j [] = length new_lines
  next_j (o ∷ runs) = o.j1

  -- The body of the loop over the runs; i and j are where the previous run has settled to end.
  unfoldable pub settled : ℕ → ℕ → Opcode → List Opcode → Opcode
  unfolding slide_block moved next_i next_j
  settled i j o runs = elim o.tag [
    | insert ↦ moved o.j1 (slide_block new_lines o.j1 (o.j2 - o.j1) j (next_j runs)) o
    | delete ↦ moved o.i1 (slide_block old_lines o.i1 (o.i2 - o.i1) i (next_i runs)) o
    | _ ↦ o
  ]

  unfoldable pub settle : ℕ → ℕ → List Opcode → List Opcode
  unfolding settled
  settle i j [] = []
  settle i j (o ∷ runs) = let o' = settled i j o runs in o' ∷ settle o'.i2 o'.j2 runs

module _ (matcher : Matcher) (old_lines new_lines : List Text) where
  -- The loop over difflib's opcodes, with the budget left.
  unfoldable pub refine : ℕ → List Opcode → List Opcode
  unfolding is_refined shifted cells_of
  refine budget [] = []
  refine budget (o ∷ ops) =
      let finer = matcher false (slice o.i1 o.i2 old_lines) (slice o.j1 o.j2 new_lines) in
      let spent = map (shifted o.i1 o.j1) finer ++ refine (budget - cells_of o) ops in
      let kept = o ∷ refine budget ops in if is_refined budget o then spent else kept

  -- _text_opcodes
  unfoldable pub text_opcodes : List Opcode
  unfolding refine settle is_change select
  text_opcodes =
      settle old_lines new_lines 0 0
        (select is_change (refine 2000000 (matcher true old_lines new_lines)))
