-- ===== src/BmcTarget/Verdict.antt =====
-- What `find_bmc` says of the interfaces of a device (jobs/bmc_target.py).
use mathlib.Core.List.{Perm}
use mathlib.Core.List.Perm
use nautobot_testsuite.Base.{
  ◌≤◌, ◌≡◌, refl, ap, subst, true, false, Option, none, some, List, [], ◌∷◌, map, arith,
  if◌then◌else◌, is_some, Text, text_lt, text_lt_trans, text_lt_irrefl, length, Bool-cases, inl,
  inr,
}
use nautobot_testsuite.BmcTarget.Rule.{
  match_bmc_interface, Ipaddress, Interface, BmcTarget, Found, unmodelled, ambiguous, target,
  bmc_matches, insert_name, sorted_names, pick_address, only_match, find_bmc,
}

-- The interfaces that have a BMC's name.
abbrev pub bmc_interfaces : List Interface → List Interface
bmc_interfaces [] = []
bmc_interfaces (i ∷ interfaces) =
    let rest = bmc_interfaces interfaces in
    if is_some (match_bmc_interface i.name) then i ∷ rest else rest

abbrev name_of : Interface → Text
name_of i = i.name

-- A text that is not behind the first of others.
abbrev pub IsFirst : Text → List Text → Type 0
IsFirst s [] = Unit {0}
IsFirst s (t ∷ texts) = text_lt t s ≡ false

abbrev pub IsSortedText : List Text → Type 0
IsSortedText [] = Unit {0}
IsSortedText (s ∷ texts) = IsFirst s texts × IsSortedText texts

-- The target that an interface makes.
pub record IsTargetOf (lib : Ipaddress) (i : Interface) (t : BmcTarget) : Type 0 where
  pub same_name : t.interface_name ≡ i.name
  pub same_id : t.interface_id ≡ i.id
  pub right_token : match_bmc_interface i.name ≡ some t.token
  pub picked : (t.address, t.addresses_seen) ≡ pick_address lib i.addresses

-- What a result says of the interfaces that have a BMC's name.
abbrev pub IsVerdictOf : Ipaddress → List Interface → Found → Type 0
IsVerdictOf lib matching unmodelled = matching ≡ []
IsVerdictOf lib matching (target t) = (i : Interface) × (matching ≡ i ∷ []) × IsTargetOf lib i t
IsVerdictOf lib matching (ambiguous names) =
    (2 ≤ length matching) × IsSortedText names × Perm names (map name_of matching)

insert_name-perm : (name : Text) (names : List Text) → Perm (insert_name name names) (name ∷ names)
unfolding insert_name
insert_name-perm name [] = Perm.refl (name ∷ [])
insert_name-perm name (first ∷ rest) = elim (Bool-cases (text_lt first name)) [
  | inl e ↦
      rw e (Perm.trans (Perm.cons first (insert_name-perm name rest)) (Perm.swap name first rest))
  | inr e ↦ rw e (Perm.refl (name ∷ first ∷ rest))
]

sorted_names-perm : (names : List Text) → Perm (sorted_names names) names
unfolding sorted_names
sorted_names-perm [] = Perm.refl []
sorted_names-perm (name ∷ names) =
    Perm.trans (insert_name-perm name (sorted_names names))
      (Perm.cons name (sorted_names-perm names))

text_lt_asymm : (s t : Text) → text_lt s t ≡ true → text_lt t s ≡ false
text_lt_asymm s t h = elim (Bool-cases (text_lt t s)) [
  | inl e ↦ ground (arith, text_lt_trans s t s h e, text_lt_irrefl s)
  | inr e ↦ e
]

IsFirst-insert_name :
    (s name : Text) (names : List Text)
    → text_lt name s ≡ false
    → IsFirst s names
    → IsFirst s (insert_name name names)
unfolding insert_name
IsFirst-insert_name s name [] h f = h
IsFirst-insert_name s name (first ∷ rest) h f = elim (Bool-cases (text_lt first name)) [
  | inl e ↦ rw e f
  | inr e ↦ rw e h
]

insert_name-IsSortedText :
    (name : Text) (names : List Text) → IsSortedText names → IsSortedText (insert_name name names)
unfolding insert_name
insert_name-IsSortedText name [] h = (tt, tt)
insert_name-IsSortedText name (first ∷ rest) h = elim (Bool-cases (text_lt first name)) [
  | inl e ↦ rw e (
    IsFirst-insert_name first name rest (text_lt_asymm first name e) h.0,
    insert_name-IsSortedText name rest h.1,
  )
  | inr e ↦ rw e (e, h)
]

sorted_names-IsSortedText : (names : List Text) → IsSortedText (sorted_names names)
unfolding sorted_names
sorted_names-IsSortedText [] = tt
sorted_names-IsSortedText (name ∷ names) =
    insert_name-IsSortedText name (sorted_names names) (sorted_names-IsSortedText names)

-- Each match has the token of its interface.
abbrev AreTokens : List (Interface × Text) → Type 0
AreTokens [] = Unit {0}
AreTokens ((i, token) ∷ ms) = (match_bmc_interface i.name ≡ some token) × AreTokens ms

abbrev matched : List (Interface × Text) → List Interface
matched ms = map (λ m. m.0) ms

names-matched : (ms : List (Interface × Text)) → map (λ m. m.0.name) ms ≡ map name_of (matched ms)
names-matched [] = refl
names-matched (m ∷ ms) = ap (λ names. m.0.name ∷ names) (names-matched ms)

matched-bmc_matches :
    (interfaces : List Interface) → matched (bmc_matches interfaces) ≡ bmc_interfaces interfaces
unfolding bmc_matches
matched-bmc_matches [] = refl
matched-bmc_matches (i ∷ interfaces) =
    by_token (matched-bmc_matches interfaces) (match_bmc_interface i.name)
  where
    by_token :
        matched (bmc_matches interfaces) ≡ bmc_interfaces interfaces
        → (found : Option Text)
        → matched (elim found [
          | none ↦ bmc_matches interfaces
          | some token ↦ (i, token) ∷ bmc_matches interfaces
        ])
          ≡ (if is_some found then i ∷ bmc_interfaces interfaces else bmc_interfaces interfaces)
    by_token ih none = ih
    by_token ih (some token) = ap (λ rest. i ∷ rest) ih

bmc_matches-AreTokens : (interfaces : List Interface) → AreTokens (bmc_matches interfaces)
unfolding bmc_matches
bmc_matches-AreTokens [] = tt
bmc_matches-AreTokens (i ∷ interfaces) =
    by_token (bmc_matches-AreTokens interfaces) (match_bmc_interface i.name) refl
  where
    by_token :
        AreTokens (bmc_matches interfaces)
        → (found : Option Text) → match_bmc_interface i.name ≡ found
        → AreTokens (elim found [
          | none ↦ bmc_matches interfaces
          | some token ↦ (i, token) ∷ bmc_matches interfaces
        ])
    by_token ih none e = ih
    by_token ih (some token) e = (e, ih)

only_match-IsVerdictOf :
    (lib : Ipaddress) (ms : List (Interface × Text))
    → AreTokens ms
    → IsVerdictOf lib (matched ms) (only_match lib ms)
unfolding only_match
only_match-IsVerdictOf lib [] h = refl
only_match-IsVerdictOf lib ((i, token) ∷ []) h =
    (i, refl, record { same_name = refl; same_id = refl; right_token = h.0; picked = refl })
only_match-IsVerdictOf lib (m ∷ k ∷ ms) h =
    let names = map (λ x. x.0.name) (m ∷ k ∷ ms) in
    (
      omega arith,
      sorted_names-IsSortedText names,
      subst (Perm (sorted_names names)) (names-matched (m ∷ k ∷ ms)) (sorted_names-perm names),
    )

-- A device has no BMC when no interface has a BMC's name. When exactly one has, the target is that
-- interface, with its name, identity, token and the address that pick_address picks of its
-- addresses. When two or more have, the device is refused as ambiguous, with the names of exactly
-- those interfaces, repeated ones included, in order.
pub find_bmc-IsVerdictOf :
    (lib : Ipaddress) (interfaces : List Interface)
    → IsVerdictOf lib (bmc_interfaces interfaces) (find_bmc lib interfaces)
unfolding find_bmc
find_bmc-IsVerdictOf lib interfaces =
    subst (λ matching. IsVerdictOf lib matching (find_bmc lib interfaces))
      (matched-bmc_matches interfaces)
      (only_match-IsVerdictOf lib (bmc_matches interfaces) (bmc_matches-AreTokens interfaces))
