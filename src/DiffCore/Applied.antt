-- ===== src/DiffCore/Applied.antt =====
-- That the runs of `_text_opcodes` (jobs/diffcore.py) lead from the old lines to the new ones.
use nautobot_testsuite.Base.{
  ℕ, zero, suc, ◌+◌, ◌-◌, ◌≤◌, ◌<◌, ◌≡◌, refl, sym, ap, ◌∙◌, some, List, [], ◌∷◌, ◌++◌, arith,
  length, get_elem?, take, drop, Text, take_append_drop, drop-drop,
}
use nautobot_testsuite.DiffCore.Runs.{
  Opcode, Matcher, slice, next_i, next_j, settled, settle, text_opcodes,
}
use nautobot_testsuite.DiffCore.Scripts.{
  Gap, Tagged, IsMatcher, get_elem?-drop, length-drop, Tagged-forward,
}
use nautobot_testsuite.DiffCore.Refined.{AreRuns, refined_runs}
use nautobot_testsuite.DiffCore.Settled.{settled-Run}

unfoldable pub apply_runs : List Text → List Text → ℕ → List Opcode → List Text
apply_runs old new i [] = drop i old
apply_runs old new i (o ∷ runs) =
    slice i o.i1 old ++ (slice o.j1 o.j2 new ++ apply_runs old new o.i2 runs)

-- Runs with equal lines before, between and behind them.
abbrev Chain : List Text → List Text → ℕ → ℕ → List Opcode → Type 0
Chain old new i j [] = Gap old new i j (length old) (length new)
Chain old new i j (o ∷ runs) =
    Gap old new i j o.i1 o.j1 × Tagged old new o o.tag × Chain old new o.i2 o.j2 runs

settle-Chain :
    (old new : List Text) (i j : ℕ) (runs : List Opcode)
    → Gap old new i j (next_i old new runs) (next_j old new runs)
    → AreRuns old new runs
    → Chain old new i j (settle old new i j runs)
unfolding settle next_i next_j
settle-Chain old new i j [] g r = g
settle-Chain old new i j (o ∷ runs) g (tagged, gap, rest) =
    let here = settled-Run old new i j o runs (g, tagged, gap) in
    let o' = settled old new i j o runs in
    (here.0, here.1, settle-Chain old new o'.i2 o'.j2 runs here.2 rest)

take_ext :
    (n : ℕ) (xs ys : List Text)
    → ((k : ℕ) → k < n → get_elem? xs k ≡ get_elem? ys k)
    → take n xs ≡ take n ys
take_ext zero xs ys h = refl
take_ext (suc n) [] [] h = refl
take_ext (suc n) [] (y ∷ ys) h = absurd (let e = h 0 (omega arith) in cc)
take_ext (suc n) (x ∷ xs) [] h = absurd (let e = h 0 (omega arith) in cc)
take_ext (suc n) (x ∷ xs) (y ∷ ys) h =
    let head : some x ≡ some y = h 0 (omega arith) in
    let rest = take_ext n xs ys (λ k below. h (suc k) (omega arith)) in cc

take_all : (n : ℕ) (xs : List Text) → n ≡ length xs → take n xs ≡ xs
take_all zero [] h = refl
take_all zero (x ∷ xs) h = absurd (omega arith)
take_all (suc n) [] h = refl
take_all (suc n) (x ∷ xs) h = ap (λ zs. x ∷ zs) (take_all n xs (omega arith))

slice_of_Gap :
    (old new : List Text) (i j i' j' : ℕ) → Gap old new i j i' j' → slice i i' old ≡ slice j j' new
slice_of_Gap old new i j i' j' g =
    let size : j' - j ≡ i' - i = omega (arith, g.i_forward, g.j_forward, g.same_size) in
    rw size (
      take_ext (i' - i) (drop i old) (drop j new) (λ k below.
        get_elem?-drop i old k ∙ (g.same_lines k (omega arith) ∙ sym (get_elem?-drop j new k))))

slice_to_end : (xs : List Text) (i : ℕ) → slice i (length xs) xs ≡ drop i xs
slice_to_end xs i = take_all (length xs - i) (drop i xs) (sym (length-drop i xs))

slice_append_drop : (xs : List Text) (i j : ℕ) → i ≤ j → slice i j xs ++ drop j xs ≡ drop i xs
slice_append_drop xs i j h =
    let there : i + (j - i) ≡ j = omega arith in
    ap (λ ys. slice i j xs ++ ys) (sym (drop-drop (j - i) i xs ∙ ap (λ k. drop k xs) there))
    ∙ take_append_drop (j - i) (drop i xs)

apply_runs-Chain :
    (old new : List Text) (i j : ℕ) (runs : List Opcode)
    → Chain old new i j runs
    → apply_runs old new i runs ≡ drop j new
unfolding apply_runs
apply_runs-Chain old new i j [] g =
    sym (slice_to_end old i) ∙ (slice_of_Gap old new i j _ _ g ∙ slice_to_end new j)
apply_runs-Chain old new i j (o ∷ runs) (g, tagged, rest) =
    let here = Tagged-forward old new o o.tag tagged in
    rw
      (
        slice_of_Gap old new i j o.i1 o.j1 g,
        apply_runs-Chain old new o.i2 o.j2 runs rest,
        slice_append_drop new o.j1 o.j2 here.1,
      )
      (slice_append_drop new j o.j1 g.j_forward)

-- Whatever matches the lines as the documentation of difflib says, applying the runs of _text_opcodes
-- to the old lines gives the new ones: each run replaces old[i1:i2] by new[j1:j2] and the lines
-- between the runs stay. Matching the replace runs again and sliding the insert and delete blocks to
-- stanza starts change nothing of it.
pub text_opcodes-apply_runs :
    (matcher : Matcher) (old new : List Text)
    → IsMatcher matcher
    → apply_runs old new 0 (text_opcodes matcher old new) ≡ new
unfolding text_opcodes
text_opcodes-apply_runs matcher old new lawful =
    let (gap, runs) = refined_runs matcher old new lawful in
    apply_runs-Chain old new 0 0 _ (settle-Chain old new 0 0 _ gap runs)
