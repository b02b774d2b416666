-- ===== src/BmcTarget/Choice.antt =====
-- Which address `pick_address` chooses (jobs/bmc_target.py).
use nautobot_testsuite.Base.{
  ◌≡◌, refl, sym, ap, ◌∙◌, subst, arith, Bool, true, false, Option, none, some, List, [], ◌∷◌, map,
  Text, if◌then◌else◌, inl, inr, ◌⊎◌,
}
use nautobot_testsuite.BmcTarget.Rule.{
  Ipaddress, before, insert_address, ordered, choose, pick_address,
}
use nautobot_testsuite.BmcTarget.Preference.{IsPreferred, IsBest, AreOrdered, ordered-AreOrdered}

-- The documentation of ipaddress: two objects are equal when they are the same address.
abbrev pub IsEquality : Ipaddress → Type 0
IsEquality lib = (a b : lib.Address) → lib.same a b ≡ true → a ≡ b

-- A member of a list, and what holds of all its members.
abbrev pub IsIn : {A : Type 0} → A → List A → Type 0
IsIn a [] = ⊥
IsIn a (b ∷ bs) = (a ≡ b) ⊎ IsIn a bs

IsIn-map : {A B : Type 0} (f : A → B) (a : A) (xs : List A) → IsIn a xs → IsIn (f a) (map f xs)
IsIn-map f a [] m = m
IsIn-map f a (b ∷ bs) (inl e) = inl (ap f e)
IsIn-map f a (b ∷ bs) (inr m) = inr (IsIn-map f a bs m)

module _ (lib : Ipaddress) where
  open lib use {Address, as_ip, same, is_link_local, version, number, spelled}

  -- The items that parse as addresses.
  abbrev pub usable : List Text → List Address
  usable [] = []
  usable (item ∷ items) =
      let rest = usable items in elim (as_ip item) [ none ↦ rest | some a ↦ a ∷ rest ]

  IsBest-in :
      (a b : Address) (bs : List Address) → IsBest lib a bs → IsIn b bs → IsPreferred lib a b
  IsBest-in a b [] h m = absurd m
  IsBest-in a b (c ∷ bs) h (inl e) = subst (IsPreferred lib a) (sym e) h.0
  IsBest-in a b (c ∷ bs) h (inr m) = IsBest-in a b bs h.1 m

  IsIn-insert_address :
      (x a : Address) (bs : List Address) → IsIn x (insert_address lib a bs) → IsIn x (a ∷ bs)
  unfolding insert_address
  IsIn-insert_address x a [] m = m
  IsIn-insert_address x a (b ∷ bs) m =
      by_tests (IsIn-insert_address x a bs) (same a b) (before lib a b) m
    where
      by_tests :
          (IsIn x (insert_address lib a bs) → IsIn x (a ∷ bs))
          → (equal first : Bool)
          → IsIn x
              (if equal then b ∷ bs else if first then a ∷ b ∷ bs else b ∷ insert_address lib a bs)
          → IsIn x (a ∷ b ∷ bs)
      by_tests ih true first m = inr m
      by_tests ih false true m = m
      by_tests ih false false (inl e) = inr (inl e)
      by_tests ih false false (inr m) = elim (ih m) [ inl e ↦ inl e | inr k ↦ inr (inr k) ]

  insert_address-IsIn :
      (x a : Address) (bs : List Address)
      → IsEquality lib
      → IsIn x (a ∷ bs)
      → IsIn x (insert_address lib a bs)
  unfolding insert_address
  insert_address-IsIn x a [] law m = m
  insert_address-IsIn x a (b ∷ bs) law m =
      by_tests (insert_address-IsIn x a bs law) (same a b) refl (before lib a b) m
    where
      by_tests :
          (IsIn x (a ∷ bs) → IsIn x (insert_address lib a bs))
          → (equal : Bool) → same a b ≡ equal
          → (first : Bool) → IsIn x (a ∷ b ∷ bs)
          → IsIn x
              (if equal then b ∷ bs else if first then a ∷ b ∷ bs else b ∷ insert_address lib a bs)
      by_tests ih true h first (inl e) = inl (e ∙ law a b h)
      by_tests ih true h first (inr m) = m
      by_tests ih false h true m = m
      by_tests ih false h false (inl e) = inr (ih (inl e))
      by_tests ih false h false (inr (inl e)) = inl e
      by_tests ih false h false (inr (inr m)) = inr (ih (inr m))

  usable-ordered :
      (x : Address) (addresses : List Text)
      → IsIn x (ordered lib addresses)
      → IsIn x (usable addresses)
  unfolding ordered
  usable-ordered x [] m = m
  usable-ordered x (item ∷ items) m = by_parsed (usable-ordered x items) (as_ip item) m
    where
      by_parsed :
          (IsIn x (ordered lib items) → IsIn x (usable items))
          → (parsed : Option Address)
          → IsIn x (elim parsed [
            | none ↦ ordered lib items
            | some a ↦ insert_address lib a (ordered lib items)
          ])
          → IsIn x (elim parsed [ none ↦ usable items | some a ↦ a ∷ usable items ])
      by_parsed ih none m = ih m
      by_parsed ih (some a) m = elim (IsIn-insert_address x a (ordered lib items) m) [
        | inl e ↦ inl e
        | inr k ↦ inr (ih k)
      ]

  ordered-usable :
      (x : Address) (addresses : List Text)
      → IsEquality lib
      → IsIn x (usable addresses)
      → IsIn x (ordered lib addresses)
  unfolding ordered
  ordered-usable x [] law m = m
  ordered-usable x (item ∷ items) law m = by_parsed (ordered-usable x items law) (as_ip item) m
    where
      by_parsed :
          (IsIn x (usable items) → IsIn x (ordered lib items))
          → (parsed : Option Address)
          → IsIn x (elim parsed [ none ↦ usable items | some a ↦ a ∷ usable items ])
          → IsIn x (elim parsed [
            | none ↦ ordered lib items
            | some a ↦ insert_address lib a (ordered lib items)
          ])
      by_parsed ih none m = ih m
      by_parsed ih (some a) (inl e) = insert_address-IsIn x a (ordered lib items) law (inl e)
      by_parsed ih (some a) (inr m) = insert_address-IsIn x a (ordered lib items) law (inr (ih m))

  -- What the chosen address and the addresses that were seen say of the usable addresses.
  abbrev pub IsPick : List Address → Option Text × List Text → Type 0
  IsPick candidates (none, seen) = (candidates ≡ []) × (seen ≡ [])
  IsPick candidates (some chosen, seen) =
      (a : Address) × (chosen ≡ spelled a)
      × IsIn a candidates
      × ((b : Address) → IsIn b candidates → IsPreferred lib a b)
      × ((b : Address) → IsIn b candidates → IsIn (spelled b) seen)

  nothing_in : (xs : List Address) → ((x : Address) → ¬ IsIn x xs) → xs ≡ []
  nothing_in [] h = refl
  nothing_in (x ∷ xs) h = absurd (h x (inl refl))

  IsPreferred-refl : (a : Address) → IsPreferred lib a a
  IsPreferred-refl a = (λ h. h, λ h. omega arith, λ h k. omega arith)

  -- pick_address chooses nothing exactly when no item parses as an address. Otherwise it chooses one
  -- of the addresses, and it prefers none of the others to it: a link-local address only when
  -- there is nothing else, then the lower version, then the lowest number; and all the addresses
  -- are among those seen. Equal addresses are one address, as ipaddress documents.
  pub pick_address-IsPick :
      (addresses : List Text)
      → IsEquality lib
      → IsPick (usable addresses) (pick_address lib addresses)
  unfolding pick_address choose
  pick_address-IsPick addresses law =
      by_ordered (ordered lib addresses) (ordered-AreOrdered lib addresses)
        (λ x. usable-ordered x addresses) (λ x. ordered-usable x addresses law)
    where
      by_ordered :
          (as' : List Address)
          → AreOrdered lib as'
          → ((x : Address) → IsIn x as' → IsIn x (usable addresses))
          → ((x : Address) → IsIn x (usable addresses) → IsIn x as')
          → IsPick (usable addresses) (choose lib as')
      by_ordered [] h into from = (nothing_in (usable addresses) from, refl)
      by_ordered (a ∷ rest) h into from = (
        a,
        refl,
        into a (inl refl),
        λ b m. elim (from b m) [
          | inl e ↦ subst (IsPreferred lib a) (sym e) (IsPreferred-refl a)
          | inr k ↦ IsBest-in a b rest h.0 k
        ],
        λ b m. IsIn-map spelled b (a ∷ rest) (from b m),
      )
