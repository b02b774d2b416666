-- ===== src/DiffCore/Hunks.antt =====
-- `_unified_range`, `_text_hunks` and `_diff_text` (jobs/diffcore.py): the text_diff mode.
use nautobot_testsuite.Base.{
  ℕ, ◌+◌, ◌-◌, Bool, ◌&&◌, not, none, some, List, [], ◌∷◌, ◌++◌, map, if◌then◌else◌, ◌==◌, ltb,
  select, is_empty, is_some, Text, codes, text_lt, Dict, gather, digits,
}
use nautobot_testsuite.Numeric.{Numeric}
use nautobot_testsuite.DiffCore.Values.{Value, text, arr, obj, Items, nil, cons, without_field}
use nautobot_testsuite.DiffCore.Config.{Compare}
use nautobot_testsuite.DiffCore.Report.{Change, Diff, verdict}
use nautobot_testsuite.DiffCore.Equality.{diff_equality_set, get_value, shared_keys}
use nautobot_testsuite.DiffCore.Stanzas.{enclosing_lines}
use nautobot_testsuite.DiffCore.TextValues.{text_lines, text_summary}
use nautobot_testsuite.DiffCore.Runs.{Opcode, Matcher, slice, text_opcodes}

-- _unified_range
unfoldable pub unified_range : ℕ → ℕ → Text
unfolding digits
unified_range start stop =
    let size = stop - start in
    if size == 1
    then digits (start + 1)
    else digits (if size == 0 then start else start + 1) ++ codes "," ++ digits size

-- A list of lines as a value.
unfoldable pub line_items : {N : Type 0} → List Text → Items N
line_items [] = nil
line_items (line ∷ lines) = cons (text line) (line_items lines)

unfoldable pub found_at : ℕ → List (ℕ × List Text) → List Text
found_at index [] = []
found_at index ((i, lines) ∷ found) =
    let rest = found_at index found in if i == index then lines else rest

-- "@@ -%s +%s @@"
unfoldable pub hunk_field : Opcode → Text
unfolding unified_range
hunk_field o =
    codes "@@ -" ++ unified_range o.i1 o.i2 ++ codes " +" ++ unified_range o.j1 o.j2 ++ codes " @@"

-- {x for x in xs}, as a list with each element once
unfoldable pub distinct : List ℕ → List ℕ
distinct [] = []
distinct (x ∷ xs) = x ∷ select (λ y. not (y == x)) (distinct xs)

-- The body of the loop of _text_hunks; an empty section is not reported.
unfoldable pub hunk_change :
    {N : Type 0}
    → Text
    → List Text
    → List Text
    → List (ℕ × List Text)
    → List (ℕ × List Text)
    → Opcode
    → Change N
unfolding hunk_field line_items found_at
hunk_change key old_lines new_lines old_parents new_parents o = record {
  key = key;
  field = some (hunk_field o);
  old = arr (line_items (slice o.i1 o.i2 old_lines));
  new = arr (line_items (slice o.j1 o.j2 new_lines));
  section = if ltb o.j1 o.j2 then found_at o.j1 new_parents else found_at o.i1 old_parents;
}

-- _text_hunks
unfoldable pub text_hunks : {N : Type 0} → Matcher → Text → List Text → List Text → List (Change N)
unfolding text_opcodes enclosing_lines hunk_change distinct select
text_hunks matcher key old_lines new_lines =
    let opcodes = text_opcodes matcher old_lines new_lines in
    let new_anchors = distinct (map (λ o. o.j1) (select (λ o. ltb o.j1 o.j2) opcodes)) in
    let old_anchors = distinct (map (λ o. o.i1) (select (λ o. o.j2 == o.j1) opcodes)) in
    let new_parents = if is_empty new_anchors then [] else enclosing_lines new_lines new_anchors in
    let old_parents = if is_empty old_anchors then [] else enclosing_lines old_lines old_anchors in
    map (hunk_change key old_lines new_lines old_parents new_parents) opcodes

-- diff["changed"].sort(key=lambda entry: str(entry.get("key"))), which is stable
unfoldable pub insert_change : {N : Type 0} → Change N → List (Change N) → List (Change N)
insert_change c [] = c ∷ []
insert_change c (d ∷ ds) =
    let rest = insert_change c ds in if text_lt d.key c.key then d ∷ rest else c ∷ d ∷ ds

unfoldable pub sort_changes : {N : Type 0} → List (Change N) → List (Change N)
unfolding insert_change
sort_changes [] = []
sort_changes (c ∷ cs) = insert_change c (sort_changes cs)

module _ (n : Numeric) (str : Value n.Number → Text) (matcher : Matcher) where
  open n use {Number, of_ℕ}

  -- A key of the set text_keys: a text on both sides.
  unfoldable pub is_text_key : Dict (Value Number) → Dict (Value Number) → Text → Bool
  unfolding text_lines get_value
  is_text_key pre post key =
      is_some (text_lines str (get_value key pre)) && is_some (text_lines str (get_value key post))

  -- The value of a key in rest_pre or rest_post.
  unfoldable pub rest_value : Bool → Value Number → Value Number
  unfolding text_summary without_field
  rest_value is_text value =
      if is_text
      then elim value [ obj fs ↦ obj (without_field (codes "lines") fs) | other ↦ other ]
      else text_summary of_ℕ str value

  unfoldable pub rest_view :
      Dict (Value Number) → Dict (Value Number) → Dict (Value Number) → Dict (Value Number)
  unfolding is_text_key rest_value
  rest_view pre post [] = []
  rest_view pre post ((key, value) ∷ side) =
      (key, rest_value (is_text_key pre post key) value) ∷ rest_view pre post side

  -- The hunks of a text key.
  unfoldable pub key_hunks : Dict (Value Number) → Dict (Value Number) → Text → List (Change Number)
  unfolding text_lines get_value text_hunks
  key_hunks pre post key = elim (text_lines str (get_value key pre)) [
    | none ↦ []
    | some old ↦ elim (text_lines str (get_value key post)) [
      | none ↦ []
      | some new ↦ text_hunks matcher key old new
    ]
  ]

  -- _diff_text; the keys of text_keys are shared keys
  unfoldable pub diff_text :
      Dict (Value Number) → Dict (Value Number) → Compare Number → Diff Number
  unfolding diff_equality_set rest_view key_hunks shared_keys select is_text_key gather sort_changes
      verdict
  diff_text pre post compare =
      let diff = diff_equality_set n (rest_view pre post pre) (rest_view pre post post) compare in
      let hunks =
        gather (key_hunks pre post) (select (is_text_key pre post) (shared_keys pre post)) in
      let changed = sort_changes (diff.changed ++ hunks) in
      record diff { result = verdict diff.added diff.removed changed; changed = changed }
