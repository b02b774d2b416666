-- ===== src/Base/Decimals.antt =====
-- Python's "%d" and "%04d" of a natural number.
use Prim.Native.Nat.{ℕ, zero, suc, ◌+◌, ◌-◌, ◌*◌, ◌/◌, ◌%◌, ◌≤◌}
use mathlib.Core.Path.{◌≡◌, refl, ◌∙◌}
use mathlib.Core.Logic.{inl, inr}
use mathlib.Core.List.{[], ◌∷◌, ◌++◌}
use native.Mathlib.Omega.{arith}
use nautobot_testsuite.Base.Tests.{ltb, if◌then◌else◌, Bool-cases}
use nautobot_testsuite.Base.Lists.{length}
use nautobot_testsuite.Base.Strings.{Text}

-- The digits of a number, with fuel for its divisions by ten.
unfoldable pub digits_from : ℕ → ℕ → Text
digits_from zero n = (b'0' + n % 10) ∷ []
digits_from (suc fuel) n =
    let rest = digits_from fuel (n / 10) ++ (b'0' + n % 10) ∷ [] in
    if ltb n 10 then (b'0' + n) ∷ [] else rest

-- "%d" % n; the number is fuel enough
unfoldable pub digits : ℕ → Text
digits n = digits_from n n

unfoldable pub zeros : ℕ → Text
zeros zero = []
zeros (suc n) = b'0' ∷ zeros n

-- "%04d" % n
unfoldable pub digits4 : ℕ → Text
digits4 n = zeros (4 - length (digits n)) ++ digits n

-- The number that a text of digits spells, behind those that `acc` stands for.
unfoldable pub number_of : ℕ → Text → ℕ
number_of acc [] = acc
number_of acc (c ∷ s) = number_of (acc * 10 + (c - b'0')) s

number_of-append : (acc : ℕ) (s t : Text) → number_of acc (s ++ t) ≡ number_of (number_of acc s) t
unfolding number_of
number_of-append acc [] t = refl
number_of-append acc (c ∷ s) t = number_of-append (acc * 10 + (c - b'0')) s t

number_of-digits_from : (fuel n : ℕ) → n ≤ fuel → number_of 0 (digits_from fuel n) ≡ n
unfolding digits_from number_of
number_of-digits_from zero n h = omega arith
number_of-digits_from (suc fuel) n h = elim (Bool-cases (ltb n 10)) [
  | inl small ↦ rw small (omega arith)
  | inr large ↦ rw large (
      number_of-append 0 (digits_from fuel (n / 10)) ((b'0' + n % 10) ∷ [])
      ∙ omega (arith, number_of-digits_from fuel (n / 10) (ground arith)))
]

pub number_of-digits : (n : ℕ) → number_of 0 (digits n) ≡ n
unfolding digits
number_of-digits n = number_of-digits_from n n (omega arith)

number_of-zeros : (k : ℕ) (s : Text) → number_of 0 (zeros k ++ s) ≡ number_of 0 s
unfolding zeros number_of
number_of-zeros zero s = refl
number_of-zeros (suc k) s = number_of-zeros k s

pub number_of-digits4 : (n : ℕ) → number_of 0 (digits4 n) ≡ n
unfolding digits4
number_of-digits4 n = number_of-zeros (4 - length (digits n)) (digits n) ∙ number_of-digits n
