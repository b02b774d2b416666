-- ===== src/DiffCore/TextValues.antt =====
-- `_text_lines` and `_text_summary` (jobs/diffcore.py): values that hold a text as a list of lines.
-- `str` of a value that is no string is Python's, a parameter.
use nautobot_testsuite.Base.{
  ℕ, ◌≡◌, refl, false, Option, none, some, List, map, arith, if◌then◌else◌, length, Text, codes,
  text_eq, eq_of_text_eq, Bool-cases, inl, inr, text_eq_iff, ◌∙◌,
}
use nautobot_testsuite.DiffCore.Values.{
  Value, num, text, arr, obj, Fields, end, field, field?, without_field, items_list,
}

-- line if isinstance(line, str) else str(line)
unfoldable pub line_text : {N : Type 0} → (Value N → Text) → Value N → Text
line_text str line = elim line [ text s ↦ s | other ↦ str other ]

unfoldable pub lines_of : {N : Type 0} → (Value N → Text) → Value N → Option (List Text)
unfolding items_list line_text
lines_of str value = elim value [
  | arr items ↦ some (map (line_text str) (items_list items))
  | _ ↦ none
]

-- _text_lines
unfoldable pub text_lines : {N : Type 0} → (Value N → Text) → Value N → Option (List Text)
unfolding field? lines_of
text_lines str value = elim value [
  | obj fs ↦ elim (field? (codes "lines") fs) [ none ↦ none | some v ↦ lines_of str v ]
  | _ ↦ none
]

-- d[key] = value
unfoldable pub put_field : {N : Type 0} → Text → Value N → Fields N → Fields N
put_field key value end = field key value end
put_field key value (field k v fs) =
    let rest = put_field key value fs in if text_eq k key then field k value fs else field k v rest

-- The summary of a text with its number of lines.
unfoldable pub summarized : {N : Type 0} → (ℕ → N) → Value N → ℕ → Value N
unfolding put_field without_field
summarized of_ℕ value count = elim value [
  | obj fs ↦
      obj (put_field (codes "line_count") (num (of_ℕ count)) (without_field (codes "lines") fs))
  | other ↦ other
]

-- _text_summary
unfoldable pub text_summary : {N : Type 0} → (ℕ → N) → (Value N → Text) → Value N → Value N
unfolding text_lines summarized
text_summary of_ℕ str value = elim (text_lines str value) [
  | none ↦ value
  | some lines ↦ summarized of_ℕ value (length lines)
]

field?-put_field :
    {N : Type 0} (k key : Text) (value : Value N) (fs : Fields N)
    → field? k (put_field key value fs) ≡ (if text_eq key k then some value else field? k fs)
unfolding field? put_field
field?-put_field k key value end = refl
field?-put_field k key value (field j v fs) = elim (Bool-cases (text_eq j key)) [
  | inl same ↦ rw same (rw (eq_of_text_eq j key same) (ground arith))
  | inr other ↦
      let ih = field?-put_field k key value fs in
      ground (arith, ih, text_eq_iff j k, text_eq_iff key k, text_eq_iff j key)
]

field?-without_field :
    {N : Type 0} (k key : Text) (fs : Fields N)
    → field? k (without_field key fs) ≡ (if text_eq key k then none else field? k fs)
unfolding field? without_field
field?-without_field k key end = ground arith
field?-without_field k key (field j v fs) =
    let ih = field?-without_field k key fs in
    ground (arith, ih, text_eq_iff j k, text_eq_iff key k, text_eq_iff j key)

-- The summary of a value that holds a text never has the lines: under "lines" there is nothing,
-- under "line_count" their number, and under every other key what the value had.
pub text_summary_lem :
    {N : Type 0} (of_ℕ : ℕ → N) (str : Value N → Text) (fs : Fields N) (lines : List Text)
    → text_lines str (obj fs) ≡ some lines
    → (gs : Fields N) × (text_summary of_ℕ str (obj fs) ≡ obj gs)
      × (field? (codes "lines") gs ≡ none)
      × (field? (codes "line_count") gs ≡ some (num (of_ℕ (length lines))))
      × ((k : Text)
          → text_eq (codes "lines") k ≡ false
          → text_eq (codes "line_count") k ≡ false
          → field? k gs ≡ field? k fs)
unfolding text_summary summarized text_eq
text_summary_lem of_ℕ str fs lines h =
    let kept = without_field (codes "lines") fs in
    let value = num (of_ℕ (length lines)) in
    (
      put_field (codes "line_count") value kept,
      rw (h, text_summary) refl,
      field?-put_field (codes "lines") (codes "line_count") value kept
          ∙ field?-without_field (codes "lines") (codes "lines") fs,
      field?-put_field (codes "line_count") (codes "line_count") value kept,
      λ k no_lines no_count. ground (
        arith,
        field?-put_field k (codes "line_count") value kept,
        field?-without_field k (codes "lines") fs,
      ),
    )
