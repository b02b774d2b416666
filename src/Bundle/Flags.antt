-- ===== src/Bundle/Flags.antt =====
-- What the "not_attached" flags say behind `ZipSink.finish` (jobs/bundle.py).
use nautobot_testsuite.Base.{
  ℕ, ◌+◌, ◌≡◌, refl, sym, ap, ◌∙◌, subst, Bool, true, false, ◌||◌, ◌&&◌, not, List, [], ◌∷◌, ◌++◌,
  arith, Text, text_eq, text_eq_refl, text_eq_comm, contains, contains-append, Bool-cases, inl, inr,
  is_empty, length, ◌==◌,
}
use nautobot_testsuite.Bundle.Archive.{Zipfile}
use nautobot_testsuite.Bundle.Packing.{Member, Finish}
use nautobot_testsuite.Bundle.Sink.{
  Sink, Outcome, attached, not_attached, interrupted, interrupted_late, done, mark_missing,
  mark_confirmed, has_id, drop_id, flagged, cleared, raises, interrupt,
}
use nautobot_testsuite.Bundle.Finishing.{
  Item, Run, carries_manifest, attach, attempt, visit, visit_all, finish_planned, first_last,
  items_from,
}

-- Whether a member has this metadata.
unfoldable pub has_member : ℕ → List Member → Bool
has_member id [] = false
has_member id (m ∷ members) = m.metadata == id || has_member id members

has_id-flagged :
    (id : ℕ) (members : List Member) (xs : List ℕ)
    → has_id id (flagged members xs) ≡ (has_member id members || has_id id xs)
unfolding has_id flagged has_member
has_id-flagged id [] xs = refl
has_id-flagged id (m ∷ members) xs = ground (arith, has_id-flagged id members xs)

has_id-drop_id :
    (id k : ℕ) (xs : List ℕ) → has_id id (drop_id k xs) ≡ (not (k == id) && has_id id xs)
unfolding has_id drop_id
has_id-drop_id id k [] = ground arith
has_id-drop_id id k (x ∷ xs) = ground (arith, has_id-drop_id id k xs)

has_id-cleared :
    (id : ℕ) (members : List Member) (xs : List ℕ)
    → has_id id (cleared members xs) ≡ (not (has_member id members) && has_id id xs)
unfolding cleared has_member
has_id-cleared id [] xs = refl
has_id-cleared id (m ∷ members) xs =
    ground (arith, has_id-drop_id id m.metadata (cleared members xs), has_id-cleared id members xs)

-- The members of a part carry the flag exactly when the part is not among the downloads.
abbrev pub IsSettled : List ℕ → List Text → Item → Type 0
IsSettled missing downloads item =
    (id : ℕ)
    → has_member id item.members ≡ true
    → has_id id missing ≡ not (contains item.name downloads)

abbrev pub AreSettled : List ℕ → List Text → List Item → Type 0
AreSettled missing downloads [] = Unit {0}
AreSettled missing downloads (item ∷ items) =
    IsSettled missing downloads item × AreSettled missing downloads items

-- Two parts with different names and no common metadata.
abbrev pub AreApart : Item → Item → Type 0
AreApart a b =
    (text_eq a.name b.name ≡ false)
    × ((id : ℕ) → (has_member id a.members && has_member id b.members) ≡ false)

abbrev pub ApartFrom : Item → List Item → Type 0
ApartFrom a [] = Unit {0}
ApartFrom a (b ∷ items) = AreApart a b × ApartFrom a items

abbrev pub AreSeparate : List Item → Type 0
AreSeparate [] = Unit {0}
AreSeparate (item ∷ items) = ApartFrom item items × AreSeparate items

contains-end :
    (x k : Text) (xs : List Text) → contains k (xs ++ x ∷ []) ≡ (contains k xs || text_eq x k)
unfolding contains
contains-end x k xs = ground (arith, contains-append k xs (x ∷ []))

-- A step that settles a part when it goes on, and leaves the flags and the downloads of all others.
pub record Settles (s : Sink) (item : Item) (r : Bool × Sink) : Type 0 where
  settles_it : r.0 ≡ true → IsSettled r.1.missing r.1.downloads item
  other_downloads :
      (name : Text)
      → text_eq item.name name ≡ false
      → contains name r.1.downloads ≡ contains name s.downloads
  other_flags :
      (id : ℕ) → has_member id item.members ≡ false → has_id id r.1.missing ≡ has_id id s.missing

module _ (zip : Zipfile) (max_bytes : ℕ) (filename : Text) (run : Run) where
  -- An attachment of a part whose flags are cleared.
  attach-Settles :
      (item : Item) (s c : Sink) (o : Outcome)
      → contains item.name s.downloads ≡ false
      → c.downloads ≡ s.downloads
      → ((id : ℕ) → has_id id c.missing ≡ (not (has_member id item.members) && has_id id s.missing))
      → Settles s item (attach zip max_bytes filename run item o c)
  unfolding attach mark_missing mark_confirmed
  attach-Settles item s c attached fresh same flags = record {
    settles_it = λ go id there. ground (
      arith,
      has_id-cleared id item.members c.missing,
      contains-end item.name item.name c.downloads,
      text_eq_refl item.name,
    );
    other_downloads =
        λ name apart. contains-end item.name name c.downloads ∙ rw (apart, same) (ground arith);
    other_flags = λ id out. has_id-cleared id item.members c.missing ∙ ground (arith, flags id);
  }
  attach-Settles item s c not_attached fresh same flags = record {
    settles_it = λ go id there. rw same (ground (arith, has_id-flagged id item.members c.missing));
    other_downloads = λ name apart. rw same refl;
    other_flags = λ id out. has_id-flagged id item.members c.missing ∙ ground (arith, flags id);
  }
  attach-Settles item s c interrupted fresh same flags = record {
    settles_it = λ go. cc;
    other_downloads = λ name apart. rw same refl;
    other_flags = λ id out. ground (arith, flags id);
  }
  attach-Settles item s c interrupted_late fresh same flags = record {
    settles_it = λ go. cc;
    other_downloads =
        λ name apart. contains-end item.name name c.downloads ∙ rw (apart, same) (ground arith);
    other_flags = λ id out. ground (arith, flags id);
  }

  has_member-empty :
      (id : ℕ) (members : List Member) → is_empty members ≡ true → has_member id members ≡ false
  unfolding has_member is_empty
  has_member-empty id [] h = refl
  has_member-empty id (m ∷ members) h = cc

  attempt-Settles :
      (plan : Finish) (item : Item) (s : Sink)
      → contains item.name s.downloads ≡ false
      → Settles s item (attempt zip max_bytes filename run plan item s)
  unfolding attempt
  attempt-Settles plan item s fresh =
      let c = record s { missing = cleared item.members s.missing } in
      elim (Bool-cases
        (is_empty item.members && not (carries_manifest zip max_bytes filename run plan item c))) [
          | inl e ↦ rw e (record {
            settles_it = λ go id there. ground (arith, has_member-empty id item.members);
            other_downloads = λ name apart. refl;
            other_flags = λ id out. has_id-cleared id item.members s.missing ∙ ground arith;
          })
          | inr e ↦ rw e (
              attach-Settles item s (record c { tries = c.tries + 1 }) (run.outcome c.tries) fresh
                refl (λ id. has_id-cleared id item.members s.missing))
        ]

  visit-Settles :
      (plan : Finish) (item : Item) (s : Sink)
      → Settles s item (visit zip max_bytes filename run plan item s)
  unfolding visit mark_missing mark_confirmed
  visit-Settles plan item s = elim (Bool-cases (contains item.name s.downloads)) [
    | inl e ↦ rw e (record {
      settles_it = λ go id there. ground (arith, e, has_id-cleared id item.members s.missing);
      other_downloads = λ name apart. refl;
      other_flags = λ id out. has_id-cleared id item.members s.missing ∙ ground arith;
    })
    | inr e ↦ elim (Bool-cases (contains item.name s.attempted)) [
      | inl f ↦
          rw (e, f)
            (record {
              settles_it =
                  λ go id there. ground (arith, e, has_id-flagged id item.members s.missing);
              other_downloads = λ name apart. refl;
              other_flags = λ id out. has_id-flagged id item.members s.missing ∙ ground arith;
            })
      | inr f ↦ rw (e, f) (attempt-Settles plan item s e)
    ]
  ]

  visit_all-IsSettled :
      (plan : Finish) (item : Item) (items : List Item) (s : Sink)
      → ApartFrom item items
      → IsSettled s.missing s.downloads item
      → let after = (visit_all zip max_bytes filename run plan items s).1 in
        IsSettled after.missing after.downloads item
  unfolding visit_all
  visit_all-IsSettled plan item [] s apart h = h
  visit_all-IsSettled plan item (b ∷ items) s (apart, rest) h =
      let v = visit-Settles plan b s in
      let after = (visit zip max_bytes filename run plan b s).1 in
      let here : IsSettled after.missing after.downloads item = λ id there.
        v.other_flags id (ground (arith, apart.1 id))
        ∙ (h id there
            ∙ ap not
                (sym (v.other_downloads item.name (text_eq_comm b.name item.name ∙ apart.0)))) in
      elim (Bool-cases (visit zip max_bytes filename run plan b s).0) [
        | inl e ↦ rw e (visit_all-IsSettled plan item items after rest here)
        | inr e ↦ rw e here
      ]

  visit_all-AreSettled :
      (plan : Finish) (items : List Item) (s : Sink)
      → AreSeparate items
      → (visit_all zip max_bytes filename run plan items s).0 ≡ true
      → let after = (visit_all zip max_bytes filename run plan items s).1 in
        AreSettled after.missing after.downloads items
  unfolding visit_all
  visit_all-AreSettled plan [] s separate h = tt
  visit_all-AreSettled plan (item ∷ items) s (apart, separate) h =
      let v = visit-Settles plan item s in
      let after = (visit zip max_bytes filename run plan item s).1 in
      elim (Bool-cases (visit zip max_bytes filename run plan item s).0) [
        | inl e ↦
            let through : visit_all zip max_bytes filename run plan (item ∷ items) s
                ≡ visit_all zip max_bytes filename run plan items after =
              rw e refl in
            subst (λ r. AreSettled r.1.missing r.1.downloads (item ∷ items)) (sym through)
              (
                visit_all-IsSettled plan item items after apart (v.settles_it e),
                visit_all-AreSettled plan items after separate (sym (ap (λ r. r.0) through) ∙ h),
              )
        | inr e ↦ absurd (let bad : false ≡ true = sym (rw e refl) ∙ h in cc)
      ]

  -- When a finalization returns, after any number of interrupted calls before, every file of every
  -- part is flagged "not_attached" exactly when its part is not among the downloads that are
  -- returned. The parts have different names and no metadata in common.
  pub finish_planned-AreSettled :
      (plan : Finish) (s : Sink) (names : List Text)
      → AreSeparate (first_last (items_from filename (length plan.parts) 0 plan.parts))
      → (finish_planned zip max_bytes filename run plan s).0 ≡ done names
      → let after = (finish_planned zip max_bytes filename run plan s).1 in
        AreSettled after.missing after.downloads
          (first_last (items_from filename (length plan.parts) 0 plan.parts))
        × (after.downloads ≡ names)
  unfolding finish_planned
  finish_planned-AreSettled plan s names separate h =
      let items = first_last (items_from filename (length plan.parts) 0 plan.parts) in
      elim (Bool-cases (visit_all zip max_bytes filename run plan items s).0) [
        | inl e ↦
            let returned : done (visit_all zip max_bytes filename run plan items s).1.downloads
                ≡ done names =
              sym (rw e refl) ∙ h in
            rw e (visit_all-AreSettled plan items s separate e, cc)
        | inr e ↦ absurd (let bad : raises interrupt ≡ done names = sym (rw e refl) ∙ h in cc)
      ]
