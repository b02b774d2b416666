-- ===== src/Examples/Texts.antt =====
-- Concrete texts (jobs/diffcore.py, the text_diff mode), with a line match that keeps the common start.
use nautobot_testsuite.Base.{
  ℕ, zero, suc, ◌+◌, ◌≡◌, ◌≤◌, ◌<◌, refl, ap, true, some, List, [], ◌∷◌, arith, length, get_elem?,
  if◌then◌else◌, ◌==◌, Bool-cases, inl, inr, Text, codes, text_eq, eq_of_text_eq, Dict, rstrip,
  lstrip, is_space, keep_unless_blank, ◌&&◌,
}
use nautobot_testsuite.DiffCore.Values.{
  Value, text, arr, obj, field, end, cons, nil, value_eq, field_count,
}
use nautobot_testsuite.DiffCore.Config.{no_compare}
use nautobot_testsuite.DiffCore.Report.{pass}
use nautobot_testsuite.DiffCore.Equality.{diff_equality_set, get_value}
use nautobot_testsuite.DiffCore.TextValues.{text_lines}
use nautobot_testsuite.DiffCore.Runs.{Opcode, Tag, equal, replace, insert, Matcher, text_opcodes}
use nautobot_testsuite.DiffCore.Scripts.{IsMatcher, Tagged, Script}
use nautobot_testsuite.DiffCore.Applied.{apply_runs, text_opcodes-apply_runs}
use nautobot_testsuite.DiffCore.Hunks.{rest_view, diff_text}
use nautobot_testsuite.DiffCore.Texts.{diff_text_pass}
use nautobot_testsuite.Examples.Comparisons.{naturals}

abbrev common_start : List Text → List Text → ℕ
common_start [] b = 0
common_start (x ∷ a) [] = 0
common_start (x ∷ a) (y ∷ b) = let rest = common_start a b in if text_eq x y then suc rest else 0

common_start_lem :
    (a b : List Text)
    → (common_start a b ≤ length a)
      × (common_start a b ≤ length b)
      × ((k : ℕ) → k < common_start a b → get_elem? a k ≡ get_elem? b k)
common_start_lem [] b = (omega arith, omega arith, λ k h. absurd (omega arith))
common_start_lem (x ∷ a) [] = (omega arith, omega arith, λ k h. absurd (omega arith))
common_start_lem (x ∷ a) (y ∷ b) = elim (Bool-cases (text_eq x y)) [
  | inl same ↦
      let (in_a, in_b, lines) = common_start_lem a b in
      rw same (omega (arith, in_a), omega (arith, in_b), at same lines)
  | inr other ↦ rw other (omega arith, omega arith, λ k h. absurd (omega arith))
]
  where
    at :
        text_eq x y ≡ true
        → ((k : ℕ) → k < common_start a b → get_elem? a k ≡ get_elem? b k)
        → (k : ℕ) → k < suc (common_start a b)
        → get_elem? (x ∷ a) k ≡ get_elem? (y ∷ b) k
    at same lines zero h = ap some (eq_of_text_eq x y same)
    at same lines (suc k) h = lines k (omega arith)

abbrev tail_tag : ℕ → ℕ → Tag
tail_tag p n = if p == n then insert else replace

-- What is left behind the common start.
abbrev left_over : ℕ → ℕ → ℕ → List Opcode
left_over p m n =
    if p == m && p == n
    then []
    else record { tag = tail_tag p m; i1 = p; i2 = m; j1 = p; j2 = n } ∷ []

abbrev keep_start : Matcher
keep_start junk a b =
    let p = common_start a b in
    record { tag = equal; i1 = 0; i2 = p; j1 = 0; j2 = p } ∷ left_over p (length a) (length b)

tail-Tagged :
    (a b : List Text) (p m n : ℕ)
    → p ≤ m
    → p ≤ n
    → let t = tail_tag p m in Tagged a b (record { tag = t; i1 = p; i2 = m; j1 = p; j2 = n }) t
tail-Tagged a b p m n h g = elim (Bool-cases (p == m)) [
  | inl e ↦ rw e (ground (arith, e), g)
  | inr e ↦ rw e (h, g)
]

left_over-Script :
    (a b : List Text) (p m n : ℕ) → p ≤ m → p ≤ n → Script a b p p (left_over p m n) m n
left_over-Script a b p m n h g = elim (Bool-cases (p == m && p == n)) [
  | inl e ↦ rw e (ground (arith, e), ground (arith, e))
  | inr e ↦ rw e (refl, refl, tail-Tagged a b p m n h g, (refl, refl))
]

keep_start-IsMatcher : IsMatcher keep_start
keep_start-IsMatcher junk a b =
    let (in_a, in_b, lines) = common_start_lem a b in
    (
      refl,
      refl,
      record {
        i_forward = omega arith;
        j_forward = omega arith;
        same_size = refl;
        same_lines = λ k h. let at : 0 + k ≡ k = omega arith in rw at (lines k (omega arith));
      },
      left_over-Script a b (common_start a b) (length a) (length b) in_a in_b,
    )

abbrev old_config : List Text
old_config = codes "interface Gi1" ∷ codes " no shutdown" ∷ codes "!" ∷ []

-- The same stanza again behind it.
abbrev new_config : List Text
new_config =
    codes "interface Gi1"
    ∷ codes " no shutdown"
    ∷ codes "!"
    ∷ codes "interface Gi2"
    ∷ codes " no shutdown"
    ∷ codes "!"
    ∷ []

-- The block of the new stanza starts at its first line.
new_stanza :
    text_opcodes keep_start old_config new_config
    ≡ record { tag = insert; i1 = 3; i2 = 3; j1 = 3; j2 = 6 } ∷ []
unfolding text_opcodes text_eq rstrip lstrip is_space keep_unless_blank
new_stanza = refl

text_opcodes-apply_runs_example :
    apply_runs old_config new_config 0 (text_opcodes keep_start old_config new_config) ≡ new_config
text_opcodes-apply_runs_example =
    text_opcodes-apply_runs keep_start old_config new_config keep_start-IsMatcher

abbrev config_view : Dict (Value ℕ)
config_view =
    (codes "running", obj (field (codes "lines") (arr (cons (text (codes "hostname a")) nil)) end))
    ∷ []

abbrev no_str : Value ℕ → Text
no_str v = []

config_pass :
    (diff_text naturals no_str keep_start config_view config_view no_compare).result ≡ pass
unfolding diff_text text_eq value_eq field_count
config_pass = refl

diff_text_pass_example :
    ((diff_equality_set naturals
        (rest_view naturals no_str keep_start config_view config_view config_view)
        (rest_view naturals no_str keep_start config_view config_view config_view)
        no_compare).result
      ≡ pass)
    × ((k : Text) (old new : List Text)
        → text_lines no_str (get_value k config_view) ≡ some old
        → text_lines no_str (get_value k config_view) ≡ some new
        → old ≡ new)
diff_text_pass_example =
    diff_text_pass naturals no_str keep_start config_view config_view no_compare
      keep_start-IsMatcher config_pass
