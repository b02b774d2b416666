-- ===== src/Bundle/Capacity.antt =====
-- What the packing of jobs/bundle.py keeps: the device groups whole, the parts within the cap.
use nautobot_testsuite.Base.{
  ℕ, ◌≤◌, ◌≡◌, refl, ap, false, some, List, [], ◌∷◌, ◌++◌, arith, leb, length, Bool-cases, inl, inr,
  select, is_empty, subst, ◌∙◌, sym,
}
use nautobot_testsuite.Bundle.Archive.{Zipfile, Info, archive_size, end_size, directory}
use nautobot_testsuite.Bundle.Packing.{
  Member, infos_of, exceeds, plan, fill, entry_list, parts, prepare_finish, was_added,
}
use mathlib.Core.List.{append-nil, append_assoc}

-- The members of the groups, one after the other.
abbrev pub joined : List (List Member) → List Member
joined [] = []
joined (g ∷ gs) = g ++ joined gs

-- Parts that are made of whole groups, in order: each part takes some groups and leaves the rest to
-- the next ones.
pub data AreWhole : List (List Member) → List (List Member) → Type 0 where
  nothing_left : AreWhole [] []
  part :
      {groups others : List (List Member)} (taken : List (List Member))
      → AreWhole others groups
      → AreWhole (joined taken ∷ others) (taken ++ groups)

joined-append : (gs hs : List (List Member)) → joined (gs ++ hs) ≡ joined gs ++ joined hs
joined-append [] hs = refl
joined-append (g ∷ gs) hs = rw (joined-append gs hs, append_assoc) refl

infos_of-append : (ms ns : List Member) → infos_of (ms ++ ns) ≡ infos_of ms ++ infos_of ns
unfolding infos_of
infos_of-append [] ns = refl
infos_of-append (m ∷ ms) ns = ap (λ infos. m.info ∷ infos) (infos_of-append ms ns)

same_infos :
    (carried : List Info) (current members : List Member)
    → (carried ++ infos_of current) ++ infos_of members ≡ carried ++ infos_of (current ++ members)
same_infos carried current members = rw (infos_of-append current members, append_assoc) refl

module _ (zip : Zipfile) (max_bytes : ℕ) where
  -- Groups that fit on their own, and parts that fit, whatever more the first one carries.
  abbrev pub AllFit : List (List Member) → Type 0
  AllFit [] = Unit {0}
  AllFit (members ∷ groups) = (archive_size zip (infos_of members) ≤ max_bytes) × AllFit groups

  abbrev pub CarriedFit : List Info → List (List Member) → Type 0
  CarriedFit carried [] = Unit {0}
  CarriedFit carried (first ∷ others) =
      (archive_size zip (carried ++ infos_of first) ≤ max_bytes) × AllFit others

  all_of_carried : (ps : List (List Member)) → CarriedFit [] ps → AllFit ps
  all_of_carried [] h = tt
  all_of_carried (p ∷ ps) h = h

  fits_of_exceeds :
      (infos : List Info) → exceeds zip max_bytes infos ≡ false → archive_size zip infos ≤ max_bytes
  unfolding exceeds
  fits_of_exceeds infos h = ground arith

  -- The groups of a plan fit on their own.
  pub plan-AllFit :
      (failed : List ℕ) (groups : List (List Member)) → AllFit (plan zip max_bytes failed groups).0
  unfolding plan
  plan-AllFit failed [] = tt
  plan-AllFit failed (original ∷ groups) =
      let rest = plan-AllFit failed groups in
      let members = select (was_added failed) original in
      elim (Bool-cases (is_empty members)) [
        | inl none_left ↦ rw none_left rest
        | inr some_left ↦
            rw some_left (elim (Bool-cases (exceeds zip max_bytes (infos_of members))) [
              | inl over ↦ rw over rest
              | inr under ↦ rw under (fits_of_exceeds (infos_of members) under, rest)
            ])
      ]

  fill-AreWhole :
      (groups taken : List (List Member)) (infos : List Info)
      → AreWhole (fill zip max_bytes groups (joined taken) infos) (taken ++ groups)
  unfolding fill
  fill-AreWhole [] taken infos = AreWhole.part taken AreWhole.nothing_left
  fill-AreWhole (members ∷ groups) taken infos =
      elim (Bool-cases (exceeds zip max_bytes (infos ++ infos_of members))) [
        | inl over ↦ rw over (
            AreWhole.part taken (
              subst
                (λ m. AreWhole (fill zip max_bytes groups m (infos_of members)) (members ∷ groups))
                (append-nil members) (fill-AreWhole groups (members ∷ []) (infos_of members))))
        | inr under ↦ rw under (
            subst
              (λ current.
                AreWhole (fill zip max_bytes groups current (infos ++ infos_of members))
                  (taken ++ (members ∷ groups)))
              (joined-append taken (members ∷ [])
                ∙ ap (λ m. joined taken ++ m) (append-nil members))
              (subst
                (λ all.
                  AreWhole
                    (fill zip max_bytes groups (joined (taken ++ members ∷ []))
                      (infos ++ infos_of members))
                    all)
                (append_assoc taken (members ∷ []) groups)
                (fill-AreWhole groups (taken ++ members ∷ []) (infos ++ infos_of members))))
      ]

  -- Every part after the current one fits, and so does the current one with what it carries.
  fill-fits :
      (groups : List (List Member)) (current : List Member) (carried : List Info)
      → AllFit groups
      → archive_size zip (carried ++ infos_of current) ≤ max_bytes
      → CarriedFit carried (fill zip max_bytes groups current (carried ++ infos_of current))
  unfolding fill
  fill-fits [] current carried h fit = (fit, tt)
  fill-fits (members ∷ groups) current carried h fit =
      elim (Bool-cases
        (exceeds zip max_bytes ((carried ++ infos_of current) ++ infos_of members))) [
          | inl over ↦ rw over (fit, all_of_carried _ (fill-fits groups members [] h.1 h.0))
          | inr under ↦ rw under (
              subst
                (λ infos. CarriedFit carried (fill zip max_bytes groups (current ++ members) infos))
                (sym (same_infos carried current members))
                (fill-fits groups (current ++ members) carried h.1 (
                  subst (λ infos. archive_size zip infos ≤ max_bytes)
                    (same_infos carried current members) (fits_of_exceeds _ under))))
        ]

  end_size-least : (count : ℕ) (sizes : ℕ × ℕ) → 22 ≤ end_size zip count sizes
  unfolding end_size
  end_size-least count (offset, central) = ground arith

  -- An archive is never smaller than its end record.
  archive_size-least : (infos : List Info) → 22 ≤ archive_size zip infos
  unfolding archive_size
  archive_size-least infos =
      let sizes = directory zip 0 0 infos in omega (arith, end_size-least (length infos) sizes)

  archive_size-nil : archive_size zip [] ≡ 22
  unfolding archive_size end_size directory
  archive_size-nil = ground arith

  -- The parts that finalization plans are made of whole device groups, in order and each of them
  -- once: no part splits a group, and none is lost.
  pub prepare_finish-AreWhole :
      (groups : List (List Member)) (info bound : Info)
      → AreWhole (prepare_finish zip max_bytes groups info bound).parts groups
  unfolding prepare_finish parts entry_list
  prepare_finish-AreWhole groups info bound =
      elim (Bool-cases (exceeds zip max_bytes (info ∷ []))) [
        | inl over ↦ rw over (fill-AreWhole groups [] [])
        | inr under ↦
            rw under (elim (Bool-cases (leb (length (parts zip max_bytes groups (some info))) 1)) [
              | inl single ↦ rw single (fill-AreWhole groups [] (info ∷ []))
              | inr several ↦ rw several (elim (Bool-cases (exceeds zip max_bytes (bound ∷ []))) [
                | inl over ↦ rw over (AreWhole.part [] (fill-AreWhole groups [] []))
                | inr within ↦ rw within (fill-AreWhole groups [] (bound ∷ []))
              ])
            ])
      ]

  -- With a cap that an empty archive keeps, every part that finalization plans keeps it: the first
  -- one together with the entry that stands for the manifest, the others on their own.
  pub prepare_finish-fits :
      (failed : List ℕ) (groups : List (List Member)) (info bound : Info)
      → 22 ≤ max_bytes
      → let f = prepare_finish zip max_bytes (plan zip max_bytes failed groups).0 info bound in
        CarriedFit (entry_list f.manifest) f.parts
  unfolding prepare_finish parts entry_list infos_of
  prepare_finish-fits failed groups info bound room =
      let kept = (plan zip max_bytes failed groups).0 in
      let fit = plan-AllFit failed groups in
      let bare = fill-fits kept [] [] fit (rw archive_size-nil room) in
      elim (Bool-cases (exceeds zip max_bytes (info ∷ []))) [
        | inl over ↦ rw over bare
        | inr under ↦
            rw under (elim (Bool-cases (leb (length (parts zip max_bytes kept (some info))) 1)) [
              | inl single ↦
                  rw single (fill-fits kept [] (info ∷ []) fit (fits_of_exceeds (info ∷ []) under))
              | inr several ↦ rw several (elim (Bool-cases (exceeds zip max_bytes (bound ∷ []))) [
                | inl over ↦ rw over (fits_of_exceeds (info ∷ []) under, all_of_carried _ bare)
                | inr within ↦
                    rw within
                      (fill-fits kept [] (bound ∷ []) fit (fits_of_exceeds (bound ∷ []) within))
              ])
            ])
      ]
