-- ===== src/Base/Strings.antt =====
-- Python's `str` as the list of its code points: equality, order, prefixes, splitting.
use Prim.Native.Nat.{ℕ, ◌+◌}
use Prim.Native.Char.{code}
use Prim.Native.String.{String}
use mathlib.Core.Path.{◌≡◌, refl}
use mathlib.Core.Logic.{◌↔◌}
use mathlib.Core.Bool.{Bool, true, false, ◌&&◌, ◌||◌}
use mathlib.Core.List.{reverse, List, [], ◌∷◌, ◌++◌, append-nil}
use native.Mathlib.Omega.{arith}
use nautobot_testsuite.Base.Tests.{ltb, ◌==◌, leb, if◌then◌else◌}
use nautobot_testsuite.Base.Lists.{all}

abbrev pub Text : Type 0
Text = List ℕ

-- The code points of a literal.
abbrev pub codes : String → Text
codes String.[] = []
codes (String.◌∷◌ c s) = code c ∷ codes s

-- a == b on strings
unfoldable pub text_eq : Text → Text → Bool
text_eq [] [] = true
text_eq [] (d ∷ t) = false
text_eq (c ∷ s) [] = false
text_eq (c ∷ s) (d ∷ t) = c == d && text_eq s t

-- a < b on strings: by the first code point that differs, a prefix first
unfoldable pub text_lt : Text → Text → Bool
text_lt s [] = false
text_lt [] (d ∷ t) = true
text_lt (c ∷ s) (d ∷ t) = ltb c d || (c == d && text_lt s t)

pub eq_of_text_eq : (s t : Text) → text_eq s t ≡ true → s ≡ t
unfolding text_eq
eq_of_text_eq [] [] h = refl
eq_of_text_eq [] (d ∷ t) h = cc
eq_of_text_eq (c ∷ s) [] h = cc
eq_of_text_eq (c ∷ s) (d ∷ t) h = ground (arith, eq_of_text_eq s t)

pub text_eq_refl : (s : Text) → text_eq s s ≡ true
unfolding text_eq
text_eq_refl [] = refl
text_eq_refl (c ∷ s) = ground (arith, text_eq_refl s)

pub text_eq_iff : (s t : Text) → (text_eq s t ≡ true) ↔ (s ≡ t)
text_eq_iff s t = (eq_of_text_eq s t, λ e. rw e (text_eq_refl t))

pub text_eq_comm : (s t : Text) → text_eq s t ≡ text_eq t s
unfolding text_eq
text_eq_comm [] [] = refl
text_eq_comm [] (d ∷ t) = refl
text_eq_comm (c ∷ s) [] = refl
text_eq_comm (c ∷ s) (d ∷ t) = ground (arith, text_eq_comm s t)

pub text_lt_irrefl : (s : Text) → text_lt s s ≡ false
unfolding text_lt
text_lt_irrefl [] = refl
text_lt_irrefl (c ∷ s) = ground (arith, text_lt_irrefl s)

pub text_lt_trans : (s t u : Text) → text_lt s t ≡ true → text_lt t u ≡ true → text_lt s u ≡ true
unfolding text_lt
text_lt_trans s t [] h k = cc
text_lt_trans s [] (e ∷ u) h k = cc
text_lt_trans [] (d ∷ t) (e ∷ u) h k = refl
text_lt_trans (c ∷ s) (d ∷ t) (e ∷ u) h k = ground (arith, text_lt_trans s t u)

-- Of two different strings one comes first.
pub text_lt_total : (s t : Text) → text_lt s t ≡ false → text_eq s t ≡ false → text_lt t s ≡ true
unfolding text_lt text_eq
text_lt_total [] [] h k = cc
text_lt_total [] (d ∷ t) h k = cc
text_lt_total (c ∷ s) [] h k = refl
text_lt_total (c ∷ s) (d ∷ t) h k = ground (arith, text_lt_total s t)

-- s.startswith(prefix)
unfoldable pub starts_with : Text → Text → Bool
starts_with s [] = true
starts_with [] (d ∷ p) = false
starts_with (c ∷ s) (d ∷ p) = c == d && starts_with s p

pub starts_with-append : (p s : Text) → starts_with (p ++ s) p ≡ true
unfolding starts_with
starts_with-append [] s = refl
starts_with-append (c ∷ p) s = ground (arith, starts_with-append p s)

-- What stands behind a prefix, when the prefix is there.
pub suffix_of_starts_with : (s p : Text) → starts_with s p ≡ true → (r : Text) × (s ≡ p ++ r)
unfolding starts_with
suffix_of_starts_with s [] h = (s, refl)
suffix_of_starts_with [] (d ∷ p) h = cc
suffix_of_starts_with (c ∷ s) (d ∷ p) h =
    let (r, e) = suffix_of_starts_with s p (ground arith) in (r, ground arith)

-- A character put in front of the first part; a separator opens a new part.
unfoldable pub extend_first : ℕ → List Text → List Text
extend_first c [] = (c ∷ []) ∷ []
extend_first c (p ∷ parts) = (c ∷ p) ∷ parts

-- s.split(sep) for a separator of one character
unfoldable pub split_on : ℕ → Text → List Text
unfolding extend_first
split_on sep [] = [] ∷ []
split_on sep (c ∷ s) =
    let rest = split_on sep s in if c == sep then [] ∷ rest else extend_first c rest

-- s.partition(sep): what stands before the first separator, whether there is one, what stands
-- behind it
unfoldable pub partition : ℕ → Text → Text × Bool × Text
partition sep [] = ([], false, [])
partition sep (c ∷ s) =
    let (before, found, behind) = partition sep s in
    if c == sep then ([], true, s) else (c ∷ before, found, behind)

-- A separator, if there was one.
unfoldable pub separator : ℕ → Bool → Text
separator sep found = if found then sep ∷ [] else []

-- c in s
unfoldable pub has_char : ℕ → Text → Bool
has_char c [] = false
has_char c (d ∷ s) = d == c || has_char c s

-- s.lower(), on ASCII
unfoldable pub lower_char : ℕ → ℕ
lower_char c = if leb b'A' c && leb c b'Z' then c + 32 else c

unfoldable pub lower : Text → Text
unfolding lower_char
lower [] = []
lower (c ∷ s) = lower_char c ∷ lower s

-- The character classes [A-Za-z] and [0-9].
unfoldable pub is_digit : ℕ → Bool
is_digit c = leb b'0' c && leb c b'9'

unfoldable pub is_letter : ℕ → Bool
is_letter c = leb b'A' c && leb c b'Z' || leb b'a' c && leb c b'z'

unfoldable pub is_alnum : ℕ → Bool
unfolding is_digit is_letter
is_alnum c = is_letter c || is_digit c

-- Nothing is lost by a partition, and the separator does not stand in its first part.
pub partition-join :
    (sep : ℕ) (s : Text)
    → let (before, found, behind) = partition sep s in before ++ (separator sep found ++ behind) ≡ s
unfolding partition separator
partition-join sep [] = refl
partition-join sep (c ∷ s) = ground (arith, partition-join sep s)

pub has_char-partition : (sep : ℕ) (s : Text) → has_char sep (partition sep s).0 ≡ false
unfolding partition has_char
has_char-partition sep [] = refl
has_char-partition sep (c ∷ s) = ground (arith, has_char-partition sep s)

-- A partition of text whose first part has no separator finds the separator behind it.
pub partition-append :
    (sep : ℕ) (s t : Text) → has_char sep s ≡ false → partition sep (s ++ sep ∷ t) ≡ (s, true, t)
unfolding partition has_char
partition-append sep [] t h = ground arith
partition-append sep (c ∷ s) t h = ground (arith, partition-append sep s t)

pub partition_absent :
    (sep : ℕ) (s : Text) → has_char sep s ≡ false → partition sep s ≡ (s, false, [])
unfolding partition has_char
partition_absent sep [] h = refl
partition_absent sep (c ∷ s) h = ground (arith, partition_absent sep s)

-- A character outside a class does not stand in a text of that class.
pub has_char-all :
    (p : ℕ → Bool) (c : ℕ) (s : Text) → all p s ≡ true → p c ≡ false → has_char c s ≡ false
unfolding has_char all
has_char-all p c [] h q = refl
has_char-all p c (d ∷ s) h q = ground (arith, has_char-all p c s)

pub has_char-append : (c : ℕ) (s t : Text) → has_char c (s ++ t) ≡ (has_char c s || has_char c t)
unfolding has_char
has_char-append c [] t = refl
has_char-append c (d ∷ s) t = ground (arith, has_char-append c s t)

-- A partition undoes the join of its parts.
pub partition-separator :
    (sep : ℕ) (s t : Text) (found : Bool)
    → has_char sep s ≡ false
    → (found ≡ false → t ≡ [])
    → partition sep (s ++ (separator sep found ++ t)) ≡ (s, found, t)
unfolding separator
partition-separator sep s t true h e = partition-append sep s t h
partition-separator sep s t false h e = rw (e refl) (rw append-nil (partition_absent sep s h))

pub partition_none : (sep : ℕ) (s : Text) → (partition sep s).1 ≡ false → (partition sep s).2 ≡ []
unfolding partition
partition_none sep [] h = refl
partition_none sep (c ∷ s) h = ground (arith, partition_none sep s)

-- str.isspace of one code point: what strip() takes off at both ends
unfoldable pub is_space : ℕ → Bool
is_space c =
    leb 9 c && leb c 13
    || leb 28 c && leb c 32
    || c == 0x85
    || c == 0xa0
    || c == 0x1680
    || leb 0x2000 c && leb c 0x200a
    || c == 0x2028
    || c == 0x2029
    || c == 0x202f
    || c == 0x205f
    || c == 0x3000

unfoldable pub lstrip : Text → Text
lstrip [] = []
lstrip (c ∷ s) = let rest = lstrip s in if is_space c then rest else c ∷ s

-- A blank at the end of a text falls, any other character stays.
unfoldable pub keep_unless_blank : ℕ → Text → Text
keep_unless_blank c [] = if is_space c then [] else c ∷ []
keep_unless_blank c (d ∷ s) = c ∷ d ∷ s

unfoldable pub rstrip : Text → Text
rstrip [] = []
rstrip (c ∷ s) = keep_unless_blank c (rstrip s)

-- s.strip()
unfoldable pub strip : Text → Text
strip s = rstrip (lstrip s)

-- s.endswith(t)
unfoldable pub ends_with : Text → Text → Bool
unfolding starts_with
ends_with s t = starts_with (reverse s) (reverse t)

-- sub in s
unfoldable pub has_substring : Text → Text → Bool
unfolding starts_with
has_substring sub [] = starts_with [] sub
has_substring sub (c ∷ s) = starts_with (c ∷ s) sub || has_substring sub s
