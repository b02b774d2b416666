-- ===== src/DiffCore/Scripts.antt =====
-- What the opcodes of a line match are (difflib), and that they can be shifted and appended.
use nautobot_testsuite.Base.{
  ℕ, zero, suc, ◌+◌, ◌-◌, ◌≤◌, ◌<◌, ◌≡◌, refl, sym, ap, ◌∙◌, subst, Bool, List, [], ◌∷◌, ◌++◌, map,
  arith, length, get_elem?, take, drop, Text,
}
use nautobot_testsuite.DiffCore.Runs.{
  Tag, equal, replace, insert, delete, Opcode, Matcher, slice, shifted,
}
use native.Mathlib.Decide.{dec_lt}

-- From (i, j) to (i', j') two lists run along each other with equal lines.
pub record Gap (a b : List Text) (i j i' j' : ℕ) : Type 0 where
  pub i_forward : i ≤ i'
  pub j_forward : j ≤ j'
  pub same_size : i' + j ≡ j' + i
  pub same_lines : (k : ℕ) → i + k < i' → get_elem? a (i + k) ≡ get_elem? b (j + k)

pub Gap-refl : (a b : List Text) (i j : ℕ) → Gap a b i j i j
Gap-refl a b i j = record {
  i_forward = omega arith;
  j_forward = omega arith;
  same_size = omega arith;
  same_lines = λ k h. absurd (omega arith);
}

pub Gap-trans :
    (a b : List Text) (i j i' j' i'' j'' : ℕ)
    → Gap a b i j i' j'
    → Gap a b i' j' i'' j''
    → Gap a b i j i'' j''
Gap-trans a b i j i' j' i'' j'' g h = record {
  i_forward = omega (arith, g.i_forward, h.i_forward);
  j_forward = omega (arith, g.j_forward, h.j_forward);
  same_size = omega (arith, g.same_size, h.same_size);
  same_lines = λ k below. elim (dec_lt (i + k) i') [
    | yes p ↦ g.same_lines k p
    | no p ↦
        let far = h.same_lines (i + k - i') (omega (arith, g.i_forward)) in
        let e₁ : i' + (i + k - i') ≡ i + k = omega arith in
        let e₂ : j' + (i + k - i') ≡ j + k = omega (arith, g.same_size, g.j_forward) in
        subst (λ x. get_elem? a x ≡ get_elem? b (j + k)) e₁
          (subst (λ x. get_elem? a (i' + (i + k - i')) ≡ get_elem? b x) e₂ far)
  ];
}

-- What a tag says of its opcode.
abbrev pub Tagged : List Text → List Text → Opcode → Tag → Type 0
Tagged a b o equal = Gap a b o.i1 o.j1 o.i2 o.j2
Tagged a b o insert = (o.i1 ≡ o.i2) × (o.j1 ≤ o.j2)
Tagged a b o delete = (o.j1 ≡ o.j2) × (o.i1 ≤ o.i2)
Tagged a b o replace = (o.i1 ≤ o.i2) × (o.j1 ≤ o.j2)

-- Opcodes that lead from (i, j) to (i', j') with no line left out.
abbrev pub Script : List Text → List Text → ℕ → ℕ → List Opcode → ℕ → ℕ → Type 0
Script a b i j [] i' j' = (i ≡ i') × (j ≡ j')
Script a b i j (o ∷ ops) i' j' =
    (o.i1 ≡ i) × (o.j1 ≡ j) × Tagged a b o o.tag × Script a b o.i2 o.j2 ops i' j'

-- What the documentation of difflib says of get_opcodes: the opcodes lead from the start of both lists
-- to their ends.
abbrev pub IsMatcher : Matcher → Type 0
IsMatcher matcher =
    (junk : Bool) (a b : List Text) → Script a b 0 0 (matcher junk a b) (length a) (length b)

pub Script-append :
    (a b : List Text) (i j i' j' i'' j'' : ℕ) (ops more : List Opcode)
    → Script a b i j ops i' j'
    → Script a b i' j' more i'' j''
    → Script a b i j (ops ++ more) i'' j''
Script-append a b i j i' j' i'' j'' [] more s t =
    subst (λ x. Script a b x j more i'' j'') (sym s.0)
      (subst (λ y. Script a b i' y more i'' j'') (sym s.1) t)
Script-append a b i j i' j' i'' j'' (o ∷ ops) more s t =
    (s.0, s.1, s.2, Script-append a b o.i2 o.j2 i' j' i'' j'' ops more s.3 t)

-- Lines of a slice.
pub get_elem?-drop :
    (i : ℕ) (xs : List Text) (k : ℕ) → get_elem? (drop i xs) k ≡ get_elem? xs (i + k)
get_elem?-drop zero xs k = ap (get_elem? xs) (omega arith)
get_elem?-drop (suc i) [] k = refl
get_elem?-drop (suc i) (x ∷ xs) k =
    let next : suc i + k ≡ suc (i + k) = omega arith in rw next (get_elem?-drop i xs k)

get_elem?-take : (n : ℕ) (xs : List Text) (k : ℕ) → k < n → get_elem? (take n xs) k ≡ get_elem? xs k
get_elem?-take zero xs k h = absurd (omega arith)
get_elem?-take (suc n) [] k h = refl
get_elem?-take (suc n) (x ∷ xs) zero h = refl
get_elem?-take (suc n) (x ∷ xs) (suc k) h = get_elem?-take n xs k (omega arith)

pub length-drop : (i : ℕ) (xs : List Text) → length (drop i xs) ≡ length xs - i
length-drop zero xs = omega arith
length-drop (suc i) [] = omega arith
length-drop (suc i) (x ∷ xs) = omega (arith, length-drop i xs)

length-take : (n : ℕ) (xs : List Text) → n ≤ length xs → length (take n xs) ≡ n
length-take zero xs h = refl
length-take (suc n) [] h = absurd (omega arith)
length-take (suc n) (x ∷ xs) h = ap suc (length-take n xs (omega arith))

get_elem?-slice :
    (i i' : ℕ) (xs : List Text) (k : ℕ)
    → i + k < i'
    → get_elem? (slice i i' xs) k ≡ get_elem? xs (i + k)
get_elem?-slice i i' xs k h =
    get_elem?-take (i' - i) (drop i xs) k (omega arith) ∙ get_elem?-drop i xs k

pub length-slice : (i i' : ℕ) (xs : List Text) → i' ≤ length xs → length (slice i i' xs) ≡ i' - i
length-slice i i' xs h = length-take (i' - i) (drop i xs) (omega (arith, length-drop i xs))

pub Tagged-forward :
    (a b : List Text) (o : Opcode) (t : Tag) → Tagged a b o t → (o.i1 ≤ o.i2) × (o.j1 ≤ o.j2)
Tagged-forward a b o equal h = (h.i_forward, h.j_forward)
Tagged-forward a b o insert h = (omega (arith, h.0), h.1)
Tagged-forward a b o delete h = (h.1, omega (arith, h.0))
Tagged-forward a b o replace h = h

pub Script-forward :
    (a b : List Text) (i j i' j' : ℕ) (ops : List Opcode)
    → Script a b i j ops i' j'
    → (i ≤ i') × (j ≤ j')
Script-forward a b i j i' j' [] s = (omega (arith, s.0), omega (arith, s.1))
Script-forward a b i j i' j' (o ∷ ops) s =
    let here = Tagged-forward a b o o.tag s.2 in
    let later = Script-forward a b o.i2 o.j2 i' j' ops s.3 in
    (omega (arith, s.0, here.0, later.0), omega (arith, s.1, here.1, later.1))

module _ (a b : List Text) (i1 i2 j1 j2 : ℕ) where
  Tagged-shifted :
      (o : Opcode) (t : Tag)
      → i1 + o.i2 ≤ i2
      → j1 + o.j2 ≤ j2
      → Tagged (slice i1 i2 a) (slice j1 j2 b) o t
      → Tagged a b (shifted i1 j1 o) t
  unfolding shifted
  Tagged-shifted o insert p q h = (omega (arith, h.0), omega (arith, h.1))
  Tagged-shifted o delete p q h = (omega (arith, h.0), omega (arith, h.1))
  Tagged-shifted o replace p q h = (omega (arith, h.0), omega (arith, h.1))
  Tagged-shifted o equal p q h = record {
    i_forward = omega (arith, h.i_forward);
    j_forward = omega (arith, h.j_forward);
    same_size = omega (arith, h.same_size);
    same_lines = λ k below.
        let x : i1 + o.i1 + k ≡ i1 + (o.i1 + k) = omega arith in
        let y : j1 + o.j1 + k ≡ j1 + (o.j1 + k) = omega arith in
        rw (x, y)
          (sym (get_elem?-slice i1 i2 a (o.i1 + k) (omega arith))
            ∙ (h.same_lines k (omega arith)
                ∙ get_elem?-slice j1 j2 b (o.j1 + k) (omega (arith, h.same_size))));
  }

  -- A script of two slices is a script of the whole lists.
  pub Script-shifted :
      (p q : ℕ) (ops : List Opcode)
      → i1 ≤ i2
      → j1 ≤ j2
      → Script (slice i1 i2 a) (slice j1 j2 b) p q ops (i2 - i1) (j2 - j1)
      → Script a b (i1 + p) (j1 + q) (map (shifted i1 j1) ops) i2 j2
  unfolding shifted
  Script-shifted p q [] h k s = (omega (arith, s.0), omega (arith, s.1))
  Script-shifted p q (o ∷ ops) h k s =
      let later =
        Script-forward (slice i1 i2 a) (slice j1 j2 b) o.i2 o.j2 (i2 - i1) (j2 - j1) ops s.3 in
      (
        omega (arith, s.0),
        omega (arith, s.1),
        Tagged-shifted o o.tag (omega (arith, later.0)) (omega (arith, later.1)) s.2,
        Script-shifted o.i2 o.j2 ops h k s.3,
      )
