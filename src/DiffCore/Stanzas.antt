-- ===== src/DiffCore/Stanzas.antt =====
-- `_enclosing_lines` (jobs/diffcore.py): the stanzas that enclose the lines of an indented text.
use nautobot_testsuite.Base.{
  ℕ, ◌+◌, ◌-◌, ◌<◌, ◌≤◌, ◌≡◌, refl, ap, Bool, ◌&&◌, ◌||◌, List, [], ◌∷◌, ◌++◌, map, reverse, arith,
  ltb, leb, ◌==◌, if◌then◌else◌, length, any, select, is_empty, Text, codes, strip, lstrip,
  starts_with, Bool-cases, inl, inr, leb→le, ◌∙◌,
}

-- (indent, stripped line)
pub record Opener : Type 0 where
  pub level : ℕ
  pub line : Text

-- len(line) - len(line.lstrip())
unfoldable pub indent_of : Text → ℕ
indent_of line = length line - length (lstrip line)

-- not text or text.startswith("!")
unfoldable pub is_separator : Text → Bool
unfolding is_empty starts_with
is_separator text = is_empty text || starts_with text (codes "!")

-- while stack and stack[-1][0] >= indent: stack.pop(); the top of the stack stands first
unfoldable pub close_stanzas : ℕ → List Opener → List Opener
close_stanzas indent [] = []
close_stanzas indent (o ∷ stack) =
    let rest = close_stanzas indent stack in if leb indent o.level then rest else o ∷ stack

-- The stack behind a line.
unfoldable pub next_stack : Text → List Opener → List Opener
unfolding close_stanzas is_separator indent_of strip
next_stack line stack =
    if is_separator (strip line)
    then stack
    else record { level = indent_of line; line = strip line } ∷ close_stanzas (indent_of line) stack

-- [opener for level, opener in stack if level < indent]
unfoldable pub parents_of : ℕ → List Opener → List Text
unfolding select
parents_of indent stack = reverse (map (λ o. o.line) (select (λ o. ltb o.level indent) stack))

-- The loop of _enclosing_lines: `found` has the wanted indexes so far.
unfoldable pub enclosing_from :
    List ℕ → ℕ → List Opener → List (ℕ × List Text) → List Text → List (ℕ × List Text)
unfolding next_stack parents_of any
enclosing_from wanted index stack found [] = found
enclosing_from wanted index stack found (line ∷ lines) =
    let is_wanted = any (λ i. i == index) wanted in
    let found' =
      if is_wanted then found ++ (index, parents_of (indent_of line) stack) ∷ [] else found in
    let rest = enclosing_from wanted (index + 1) (next_stack line stack) found' lines in
    if is_wanted && length found' == length wanted then found' else rest

-- _enclosing_lines; `wanted` is a set
unfoldable pub enclosing_lines : List Text → List ℕ → List (ℕ × List Text)
enclosing_lines lines wanted = enclosing_from wanted 0 [] [] lines

-- The stack behind the first lines of a text.
unfoldable pub stack_after : List Opener → List Text → List Opener
stack_after stack [] = stack
stack_after stack (line ∷ lines) = stack_after (next_stack line stack) lines

-- Each open stanza is indented deeper than the one around it.
abbrev pub IsNested : List Opener → Type 0
IsNested [] = Unit {0}
IsNested (o ∷ []) = Unit {0}
IsNested (o ∷ p ∷ stack) = (p.level < o.level) × IsNested (p ∷ stack)

IsNested-tail : (o : Opener) (stack : List Opener) → IsNested (o ∷ stack) → IsNested stack
IsNested-tail o [] h = tt
IsNested-tail o (p ∷ stack) h = h.1

-- Closing leaves a nested stack below the indent.
abbrev Below : ℕ → List Opener → Type 0
Below indent [] = Unit {0}
Below indent (o ∷ stack) = o.level < indent

close_stanzas-IsNested :
    (indent : ℕ) (stack : List Opener)
    → IsNested stack
    → IsNested (close_stanzas indent stack) × Below indent (close_stanzas indent stack)
unfolding close_stanzas
close_stanzas-IsNested indent [] h = (tt, tt)
close_stanzas-IsNested indent (o ∷ stack) h = elim (Bool-cases (leb indent o.level)) [
  | inl deep ↦ rw deep (close_stanzas-IsNested indent stack (IsNested-tail o stack h))
  | inr open_left ↦ rw open_left (h, ground arith)
]

cons-IsNested :
    (o : Opener) (stack : List Opener) → IsNested stack → Below o.level stack → IsNested (o ∷ stack)
cons-IsNested o [] h b = tt
cons-IsNested o (p ∷ stack) h b = (b, h)

next_stack-IsNested :
    (line : Text) (stack : List Opener) → IsNested stack → IsNested (next_stack line stack)
unfolding next_stack
next_stack-IsNested line stack h = elim (Bool-cases (is_separator (strip line))) [
  | inl skipped ↦ rw skipped h
  | inr opens ↦
      let (nested, below) = close_stanzas-IsNested (indent_of line) stack h in
      rw opens (
        cons-IsNested (record { level = indent_of line; line = strip line })
          (close_stanzas (indent_of line) stack) nested below)
]

stack_after-IsNested :
    (stack : List Opener) (lines : List Text) → IsNested stack → IsNested (stack_after stack lines)
unfolding stack_after
stack_after-IsNested stack [] h = h
stack_after-IsNested stack (line ∷ lines) h =
    stack_after-IsNested (next_stack line stack) lines (next_stack-IsNested line stack h)

-- Around a stanza below an indent, every stanza is below it.
select_all :
    (indent : ℕ) (o : Opener) (stack : List Opener)
    → IsNested (o ∷ stack)
    → o.level < indent
    → select (λ x. ltb x.level indent) (o ∷ stack) ≡ o ∷ stack
unfolding select
select_all indent o [] h below = ground arith
select_all indent o (p ∷ stack) h below =
    ground (arith, select_all indent p stack h.1 (omega (arith, h.0)))

select_drop :
    (indent : ℕ) (o : Opener) (stack : List Opener)
    → indent ≤ o.level
    → select (λ x. ltb x.level indent) (o ∷ stack) ≡ select (λ x. ltb x.level indent) stack
unfolding select
select_drop indent o stack deep = ground arith

-- In a nested stack the stanzas below an indent are those that stay open at it.
select_close :
    (indent : ℕ) (stack : List Opener)
    → IsNested stack
    → select (λ o. ltb o.level indent) stack ≡ close_stanzas indent stack
unfolding close_stanzas
select_close indent [] h = unfold select in refl
select_close indent (o ∷ stack) h = elim (Bool-cases (leb indent o.level)) [
  | inl deep ↦ rw deep (
      select_drop indent o stack (leb→le indent o.level deep)
      ∙ select_close indent stack (IsNested-tail o stack h))
  | inr open_left ↦ rw open_left (select_all indent o stack h (ground arith))
]

-- Behind any lines of a text, the open stanzas are indented ever deeper, and the parents that are
-- given for a line of some indent are the stanzas that stay open at that indent, outermost first.
pub parents_of-close_stanzas :
    (lines : List Text) (indent : ℕ)
    → let stack = stack_after [] lines in
      IsNested stack
      × (parents_of indent stack ≡ reverse (map (λ o. o.line) (close_stanzas indent stack)))
unfolding parents_of
parents_of-close_stanzas lines indent =
    let nested = stack_after-IsNested [] lines tt in
    (
      nested,
      ap (λ os. reverse (map (λ o. o.line) os)) (select_close indent (stack_after [] lines) nested),
    )
