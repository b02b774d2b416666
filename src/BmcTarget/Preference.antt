-- ===== src/BmcTarget/Preference.antt =====
-- The order in which `pick_address` prefers addresses (jobs/bmc_target.py).
use nautobot_testsuite.Base.{
  ℕ, ◌≤◌, ◌≡◌, Bool, true, false, List, [], ◌∷◌, arith, Text, Bool-cases, inl, inr, Option, none,
  some,
}
use nautobot_testsuite.BmcTarget.Rule.{Ipaddress, before, insert_address, ordered}

-- The order of preference: an address that is not link-local, then the lower version, then the lower
-- number.
abbrev IsKeyOrder : Bool → ℕ → ℕ → Bool → ℕ → ℕ → Type 0
IsKeyOrder p v n q w m = (p ≡ true → q ≡ true) × (p ≡ q → v ≤ w) × (p ≡ q → v ≡ w → n ≤ m)

IsKeyOrder-trans :
    (p q r : Bool) (u v w i j k : ℕ)
    → IsKeyOrder p u i q v j
    → IsKeyOrder q v j r w k
    → IsKeyOrder p u i r w k
IsKeyOrder-trans p q r u v w i j k (a, b, c) (d, e, f) = (
  λ h. d (a h),
  λ h. omega (arith, b (alike h).0, e (alike h).1),
  λ h o.
      let low = b (alike h).0 in
      let high = e (alike h).1 in
      let first = c (alike h).0 (omega (arith, low, high, o)) in
      let second = f (alike h).1 (omega (arith, low, high, o)) in omega (arith, first, second),
)
  where
    alike : p ≡ r → (p ≡ q) × (q ≡ r)
    alike h = elim (Bool-cases p) [
      | inl link ↦ let mid = a link in (cc, cc)
      | inr plain ↦ elim (Bool-cases q) [
        | inl link ↦ let last = d link in absurd cc
        | inr also ↦ (cc, cc)
      ]
    ]

module _ (lib : Ipaddress) where
  open lib use {Address, as_ip, same, is_link_local, version, number, spelled}

  -- No address is better than the first one: it is link-local only if the other one is, and among
  -- two that are alike in that it has the lower version, and of one version the lower number.
  abbrev pub IsPreferred : Address → Address → Type 0
  IsPreferred a b =
      IsKeyOrder (is_link_local a) (version a) (number a) (is_link_local b) (version b) (number b)

  IsPreferred-before : (a b : Address) → before lib a b ≡ true → IsPreferred a b
  unfolding before
  IsPreferred-before a b h = (ground arith, ground arith, ground arith)

  IsPreferred-behind : (a b : Address) → before lib a b ≡ false → IsPreferred b a
  unfolding before
  IsPreferred-behind a b h = (ground arith, ground arith, ground arith)

  -- An address to which none of others is preferred.
  abbrev pub IsBest : Address → List Address → Type 0
  IsBest a [] = Unit {0}
  IsBest a (b ∷ bs) = IsPreferred a b × IsBest a bs

  abbrev pub AreOrdered : List Address → Type 0
  AreOrdered [] = Unit {0}
  AreOrdered (a ∷ rest) = IsBest a rest × AreOrdered rest

  IsBest-trans : (a b : Address) (bs : List Address) → IsPreferred a b → IsBest b bs → IsBest a bs
  IsBest-trans a b [] p h = tt
  IsBest-trans a b (c ∷ bs) p h =
      (IsKeyOrder-trans _ _ _ _ _ _ _ _ _ p h.0, IsBest-trans a b bs p h.1)

  IsBest-insert_address :
      (a b : Address) (bs : List Address)
      → IsPreferred a b
      → IsBest a bs
      → IsBest a (insert_address lib b bs)
  unfolding insert_address
  IsBest-insert_address a b [] p h = (p, tt)
  IsBest-insert_address a b (c ∷ bs) p h = elim (Bool-cases (same b c)) [
    | inl equal ↦ rw equal h
    | inr other ↦ rw other (elim (Bool-cases (before lib b c)) [
      | inl first ↦ rw first (p, h)
      | inr later ↦ rw later (h.0, IsBest-insert_address a b bs p h.1)
    ])
  ]

  insert_address-AreOrdered :
      (a : Address) (others : List Address)
      → AreOrdered others
      → AreOrdered (insert_address lib a others)
  unfolding insert_address
  insert_address-AreOrdered a [] h = (tt, tt)
  insert_address-AreOrdered a (b ∷ bs) h = elim (Bool-cases (same a b)) [
    | inl equal ↦ rw equal h
    | inr other ↦ rw other (elim (Bool-cases (before lib a b)) [
      | inl first ↦
          let p = IsPreferred-before a b first in rw first ((p, IsBest-trans a b bs p h.0), h)
      | inr later ↦ rw later (
        IsBest-insert_address b a bs (IsPreferred-behind a b later) h.0,
        insert_address-AreOrdered a bs h.1,
      )
    ])
  ]

  pub ordered-AreOrdered : (addresses : List Text) → AreOrdered (ordered lib addresses)
  unfolding ordered
  ordered-AreOrdered [] = tt
  ordered-AreOrdered (item ∷ items) =
      by_parsed (as_ip item) (ordered lib items) (ordered-AreOrdered items)
    where
      by_parsed :
          (parsed : Option Address) (rest : List Address)
          → AreOrdered rest
          → AreOrdered (elim parsed [ none ↦ rest | some a ↦ insert_address lib a rest ])
      by_parsed none rest h = h
      by_parsed (some a) rest h = insert_address-AreOrdered a rest h
