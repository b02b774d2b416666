-- ===== src/ProxmoxPaths/Identifiers.antt =====
-- The identifier grammars and the template match (jobs/proxmox_paths.py, `_ID`, `_IDENTIFIERS`,
-- `_RULES` with `fullmatch`).
use nautobot_testsuite.Base.{
  ℕ, ◌≡◌, refl, Bool, true, false, ◌&&◌, ◌||◌, not, Option, none, some, List, [], ◌∷◌, ◌++◌, leb,
  ◌==◌, if◌then◌else◌, length, all, is_empty, Text, codes, text_eq, split_on, partition, has_char,
  is_alnum, is_digit, Option-cases, inl, inr, arith, Bool-cases,
}
use nautobot_testsuite.ProxmoxPaths.Schema.{
  Identifier, name, vmid, number, poolid, userid, upid, cidr, Piece, lit, ident,
}
use mathlib.Core.List.{append-nil, append_assoc}

-- A text of one character or more, all of a class.
unfoldable pub some_of : (ℕ → Bool) → Text → Bool
some_of p s = not (is_empty s) && all p s

-- [A-Za-z0-9_.-], [A-Za-z0-9_.:-], [A-Za-z0-9_.+-], [A-Za-z0-9:.], [A-Fa-f0-9]
unfoldable pub word_char : ℕ → Bool
word_char c = is_alnum c || has_char c (codes "_.-")

unfoldable pub name_char : ℕ → Bool
name_char c = is_alnum c || has_char c (codes "_.:-")

unfoldable pub user_char : ℕ → Bool
user_char c = is_alnum c || has_char c (codes "_.+-")

unfoldable pub address_char : ℕ → Bool
address_char c = is_alnum c || has_char c (codes ":.")

unfoldable pub hex_char : ℕ → Bool
hex_char c = is_digit c || leb b'A' c && leb c b'F' || leb b'a' c && leb c b'f'

-- [A-Za-z0-9][A-Za-z0-9_.:-]*
unfoldable pub is_name : Text → Bool
is_name [] = false
is_name (c ∷ s) = is_alnum c && all name_char s

-- [1-9][0-9]{2,8}
unfoldable pub is_vmid : Text → Bool
is_vmid [] = false
is_vmid (c ∷ s) = leb b'1' c && leb c b'9' && all is_digit s && leb 2 (length s) && leb (length s) 8

-- [A-Za-z0-9_.-]+(?:/[A-Za-z0-9_.-]+){0,2}
unfoldable pub is_poolid : Text → Bool
is_poolid s = let parts = split_on b'/' s in all (some_of word_char) parts && leb (length parts) 3

-- [A-Za-z0-9_.+-]+@[A-Za-z0-9_.-]+
unfoldable pub is_userid : Text → Bool
is_userid s =
    let (user, found, realm) = partition b'@' s in
    some_of user_char user && found && some_of word_char realm

-- The user of a task, with the name of an API token: is_userid(?:![A-Za-z0-9_.-]+)?
unfoldable pub is_task_user : Text → Bool
is_task_user s =
    let (user, found, token) = partition b'!' s in
    is_userid user && (not found || some_of word_char token)

-- UPID:node:pid:pstart:starttime:type:id:user:
unfoldable pub is_upid_parts : List Text → Bool
is_upid_parts (tag ∷ node ∷ pid ∷ pstart ∷ started ∷ type ∷ id ∷ user ∷ last ∷ []) =
    text_eq tag (codes "UPID")
    && some_of word_char node
    && some_of hex_char pid
    && some_of hex_char pstart
    && some_of hex_char started
    && some_of word_char type
    && all word_char id
    && is_task_user user
    && is_empty last
is_upid_parts _ = false

unfoldable pub is_upid : Text → Bool
is_upid s = is_upid_parts (split_on b':' s)

-- [A-Za-z0-9:.]+(?:/[0-9]{1,3})?
unfoldable pub is_cidr : Text → Bool
is_cidr s =
    let (address, found, bits) = partition b'/' s in
    some_of address_char address && (not found || some_of is_digit bits && leb (length bits) 3)

unfoldable pub identifier_match : Identifier → Text → Bool
identifier_match name s = is_name s
identifier_match vmid s = is_vmid s
identifier_match number s = some_of is_digit s
identifier_match poolid s = is_poolid s
identifier_match userid s = is_userid s
identifier_match upid s = is_upid s
identifier_match cidr s = is_cidr s

-- What stands behind a literal piece, when it is there.
unfoldable pub after_literal : Text → Text → Option Text
after_literal s [] = some s
after_literal [] (d ∷ p) = none
after_literal (c ∷ s) (d ∷ p) = let rest = after_literal s p in if c == d then rest else none

-- A cut of the text at which the first part, behind what was read before, passes one test and the
-- rest passes another.
unfoldable pub cut_match : (Text → Bool) → (Text → Bool) → Text → Text → Bool
cut_match first later seen [] = first seen && later []
cut_match first later seen (c ∷ s) =
    first seen && later (c ∷ s) || cut_match first later (seen ++ c ∷ []) s

-- pattern.fullmatch(resource)
unfoldable pub template_match : List Piece → Text → Bool
template_match [] s = is_empty s
template_match (lit t ∷ pieces) s = elim (after_literal s t) [
  | none ↦ false
  | some rest ↦ template_match pieces rest
]
template_match (ident i ∷ pieces) s = cut_match (identifier_match i) (template_match pieces) [] s

-- An independent reading of a template: the text is the pieces' texts, one after the other.
pub data Matches : List Piece → Text → Type 0 where
  done : Matches [] []
  literal :
      {pieces : List Piece} {rest : Text} (t : Text)
      → Matches pieces rest
      → Matches (lit t ∷ pieces) (t ++ rest)
  placeholder :
      {pieces : List Piece} {rest : Text} (i : Identifier) (value : Text)
      → identifier_match i value ≡ true
      → Matches pieces rest
      → Matches (ident i ∷ pieces) (value ++ rest)

pub append_after_literal : (s t r : Text) → after_literal s t ≡ some r → s ≡ t ++ r
unfolding after_literal
append_after_literal s [] r h = ground arith
append_after_literal [] (d ∷ p) r h = cc
append_after_literal (c ∷ s) (d ∷ p) r h = ground (arith, append_after_literal s p r)

after_literal-append : (t r : Text) → after_literal (t ++ r) t ≡ some r
unfolding after_literal
after_literal-append [] r = refl
after_literal-append (c ∷ t) r = ground (arith, after_literal-append t r)

-- A cut that passes its tests, from what was seen on.
cut_of_match :
    (first later : Text → Bool) (seen s : Text)
    → cut_match first later seen s ≡ true
    → (a b : Text) × (s ≡ a ++ b) × (first (seen ++ a) ≡ true) × (later b ≡ true)
unfolding cut_match
cut_of_match first later seen [] h = ([], [], refl, rw append-nil (ground arith), ground arith)
cut_of_match first later seen (c ∷ s) h = elim (Bool-cases (first seen && later (c ∷ s))) [
  | inl here ↦ ([], c ∷ s, refl, rw append-nil (ground arith), ground arith)
  | inr other ↦
      let further : cut_match first later (seen ++ c ∷ []) s ≡ true = ground arith in
      let (a, b, e, p, q) = cut_of_match first later (seen ++ c ∷ []) s further in
      (c ∷ a, b, rw e refl, rw append_assoc at p, q)
]

match_of_cut :
    (first later : Text → Bool) (seen a b : Text)
    → first (seen ++ a) ≡ true
    → later b ≡ true
    → cut_match first later seen (a ++ b) ≡ true
unfolding cut_match
match_of_cut first later seen [] [] p q = let p' = rw append-nil at p in ground arith
match_of_cut first later seen [] (c ∷ b) p q = let p' = rw append-nil at p in ground arith
match_of_cut first later seen (c ∷ a) b p q =
    ground (arith, match_of_cut first later (seen ++ c ∷ []) a b (rw append_assoc p) q)

-- The matcher accepts only what the template describes.
pub template_match-Matches :
    (pieces : List Piece) (s : Text) → template_match pieces s ≡ true → Matches pieces s
unfolding template_match is_empty
template_match-Matches [] [] h = done
template_match-Matches [] (c ∷ s) h = absurd (ground arith)
template_match-Matches (lit t ∷ pieces) s h = elim (Option-cases (after_literal s t)) [
  | inl absent ↦ absurd (ground (arith, absent))
  | inr (rest, found) ↦
      rw (append_after_literal s t rest found)
        (literal t (template_match-Matches pieces rest (ground (arith, found))))
]
template_match-Matches (ident i ∷ pieces) s h =
    let (a, b, e, p, q) = cut_of_match (identifier_match i) (template_match pieces) [] s h in
    rw e (placeholder i a p (template_match-Matches pieces b q))

pub Matches-template_match :
    (pieces : List Piece) (s : Text) → Matches pieces s → template_match pieces s ≡ true
unfolding template_match is_empty
Matches-template_match _ _ done = refl
Matches-template_match _ _ (literal {pieces} {rest} t m) =
    rw (after_literal-append t rest, template_match) (Matches-template_match pieces rest m)
Matches-template_match _ _ (placeholder {pieces} {rest} i value ok m) =
    match_of_cut (identifier_match i) (template_match pieces) [] value rest ok
      (Matches-template_match pieces rest m)
