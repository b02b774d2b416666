-- ===== src/Bundle/Names.antt =====
-- `safe_name` (jobs/envelope.py) and `validate_device_names` (jobs/bundle.py): the names of artifacts.
use nautobot_testsuite.Base.{
  ℕ, ◌≡◌, refl, ◌↔◌, Bool, true, false, ◌&&◌, ◌||◌, not, Option, none, some, List, [], ◌∷◌, map,
  arith, ◌==◌, if◌then◌else◌, all, is_empty, Text, codes, text_eq, has_char, is_alnum, is_letter,
  is_digit, contains, Dict, lookup, put, is_some, lookup-put, AreDistinct, text_eq_iff,
}

-- [A-Za-z0-9._-]
unfoldable pub safe_char : ℕ → Bool
safe_char c = is_alnum c || has_char c (codes "._-")

-- _SAFE.sub("-", value): each run of other characters becomes one dash.
unfoldable pub dashed : Bool → Text → Text
dashed in_run [] = []
dashed in_run (c ∷ s) =
    let kept = c ∷ dashed false s in
    let run = dashed true s in if safe_char c then kept else if in_run then run else b'-' ∷ run

-- .strip("-")
unfoldable pub lstrip_dash : Text → Text
lstrip_dash [] = []
lstrip_dash (c ∷ s) = let rest = lstrip_dash s in if c == b'-' then rest else c ∷ s

unfoldable pub dash_end : ℕ → Text → Text
dash_end c [] = if c == b'-' then [] else c ∷ []
dash_end c (d ∷ s) = c ∷ d ∷ s

unfoldable pub rstrip_dash : Text → Text
rstrip_dash [] = []
rstrip_dash (c ∷ s) = dash_end c (rstrip_dash s)

-- safe_name, of str(value)
unfoldable pub safe_name : Text → Text
unfolding is_empty
safe_name value =
    let safe = rstrip_dash (lstrip_dash (dashed false value)) in
    if is_empty safe then codes "unnamed" else safe

-- The loop of validate_device_names, with `seen`: the safe names so far and the names that gave them.
-- The result is the clash that the exception reports.
unfoldable pub first_clash : Dict Text → List Text → Option (Text × Text × Text)
unfolding lookup put
first_clash seen [] = none
first_clash seen (name ∷ names) =
    let rest = first_clash (put (safe_name name) name seen) names in
    elim (lookup (safe_name name) seen) [
      | none ↦ rest
      | some earlier ↦ some (earlier, name, safe_name name)
    ]

unfoldable pub validate_device_names : List Text → Option (Text × Text × Text)
validate_device_names names = first_clash [] names

dash_safe : safe_char b'-' ≡ true
unfolding safe_char has_char is_alnum is_letter is_digit
dash_safe = refl

dashed_safe : (in_run : Bool) (s : Text) → all safe_char (dashed in_run s) ≡ true
unfolding dashed all
dashed_safe in_run [] = refl
dashed_safe in_run (c ∷ s) = ground (arith, dashed_safe false s, dashed_safe true s, dash_safe)

lstrip_safe : (s : Text) → all safe_char s ≡ true → all safe_char (lstrip_dash s) ≡ true
unfolding lstrip_dash all
lstrip_safe [] h = refl
lstrip_safe (c ∷ s) h = ground (arith, lstrip_safe s)

dash_end_safe :
    (c : ℕ) (s : Text)
    → safe_char c ≡ true
    → all safe_char s ≡ true
    → all safe_char (dash_end c s) ≡ true
unfolding dash_end all
dash_end_safe c [] h k = ground arith
dash_end_safe c (d ∷ s) h k = ground arith

rstrip_safe : (s : Text) → all safe_char s ≡ true → all safe_char (rstrip_dash s) ≡ true
unfolding rstrip_dash all
rstrip_safe [] h = refl
rstrip_safe (c ∷ s) h = ground (arith, rstrip_safe s, dash_end_safe c (rstrip_dash s))

-- A safe name is never empty and has letters, digits, dots, underscores and dashes only: no path
-- separator survives.
pub safe_name_lem :
    (value : Text) → (all safe_char (safe_name value) ≡ true) × (is_empty (safe_name value) ≡ false)
unfolding safe_name all safe_char has_char is_alnum is_letter is_digit is_empty
safe_name_lem value =
    by_case (rstrip_dash (lstrip_dash (dashed false value)))
      (rstrip_safe _ (lstrip_safe _ (dashed_safe false value)))
  where
    by_case :
        (safe : Text)
        → all safe_char safe ≡ true
        → (all safe_char (if is_empty safe then codes "unnamed" else safe) ≡ true)
          × (is_empty (if is_empty safe then codes "unnamed" else safe) ≡ false)
    by_case [] h = (refl, refl)
    by_case (c ∷ s) h = (h, refl)

fresh : Dict Text → Text → Bool
fresh seen name = not (is_some (lookup (safe_name name) seen))

text_eq_sym : (a b : Text) → text_eq a b ≡ text_eq b a
text_eq_sym a b = ground (arith, text_eq_iff a b, text_eq_iff b a)

-- Names that are fresh once one more is seen.
fresh-put :
    (safe name : Text) (seen : Dict Text) (names : List Text)
    → all (fresh (put safe name seen)) names
      ≡ (not (contains safe (map safe_name names)) && all (fresh seen) names)
unfolding all fresh contains
fresh-put safe name seen [] = refl
fresh-put safe name seen (n ∷ names) = ground (
  arith,
  fresh-put safe name seen names,
  lookup-put safe (safe_name n) name seen,
  text_eq_sym safe (safe_name n),
)

no_clash_iff :
    (seen : Dict Text) (names : List Text)
    → (first_clash seen names ≡ none)
      ↔ ((all (fresh seen) names ≡ true) × AreDistinct (map safe_name names))
unfolding first_clash fresh all
no_clash_iff seen [] = (λ _. (refl, tt), λ _. refl)
no_clash_iff seen (name ∷ names) =
    let rest = no_clash_iff (put (safe_name name) name seen) names in
    let step = fresh-put (safe_name name) name seen names in
    (
      λ h.
          let (open_left, distinct) = rest.0 (ground arith) in
          (ground arith, (ground arith, distinct)),
      λ h. let later = rest.1 (ground arith, h.1.1) in ground arith,
    )

all-fresh : (names : List Text) → all (fresh []) names ≡ true
unfolding all fresh lookup
all-fresh [] = refl
all-fresh (n ∷ names) = all-fresh names

-- A selection of devices is accepted exactly when no two of them share a safe name.
pub validate_device_names_iff :
    (names : List Text) → (validate_device_names names ≡ none) ↔ AreDistinct (map safe_name names)
unfolding validate_device_names
validate_device_names_iff names =
    (λ h. ((no_clash_iff [] names).0 h).1, λ h. (no_clash_iff [] names).1 (all-fresh names, h))
