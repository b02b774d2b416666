-- ===== src/Bundle/Retries.antt =====
-- That calls of `ZipSink.finish` (jobs/bundle.py) come to an end when the interruptions do.
use nautobot_testsuite.Base.{
  ℕ, suc, zero, ◌+◌, ◌≤◌, ◌≡◌, refl, sym, ap, ◌∙◌, subst, Bool, true, false, Option, none, some,
  List, [], ◌∷◌, arith, Text, text_eq, text_eq_refl, contains, Bool-cases, inl, inr, is_empty, ◌&&◌,
  not, length, ◌<◌, ◌⊎◌,
}
use nautobot_testsuite.Bundle.Archive.{Zipfile}
use nautobot_testsuite.Bundle.Packing.{Finish}
use nautobot_testsuite.Bundle.Sink.{
  Sink, Outcome, attached, not_attached, interrupted, interrupted_late, Done, mark_missing,
  mark_confirmed, cleared,
}
use nautobot_testsuite.Bundle.Finishing.{
  Item, Run, carries_manifest, attach, attempt, visit, visit_all, prepare, finish_planned, finish,
  first_last, items_from, finish_from,
}

unfoldable pub is_interruption : Outcome → Bool
is_interruption interrupted = true
is_interruption interrupted_late = true
is_interruption _ = false

-- What the loop of finish leaves as it is, with the attachments it begins.
record Kept (s s' : Sink) : Type 0 where
  closed : s'.is_closed ≡ s.is_closed
  finished : s'.is_finished ≡ s.is_finished
  planned : s'.finish_parts ≡ s.finish_parts
  named : s'.manifest_filename ≡ s.manifest_filename
  later : s.tries ≤ s'.tries

Kept-trans : (s s' s'' : Sink) → Kept s s' → Kept s' s'' → Kept s s''
Kept-trans s s' s'' h k = record {
  closed = k.closed ∙ h.closed;
  finished = k.finished ∙ h.finished;
  planned = k.planned ∙ h.planned;
  named = k.named ∙ h.named;
  later = omega (arith, h.later, k.later);
}

-- A step of the loop goes on, or it began an attachment that was interrupted.
-- The loop changes only these fields.
Kept-changes :
    (s : Sink) {missing confirmed : List ℕ} {attempted downloads : List Text} {tries : ℕ}
    → s.tries ≤ tries
    → Kept s (record s {
      missing = missing;
      confirmed = confirmed;
      attempted = attempted;
      downloads = downloads;
      tries = tries;
    })
Kept-changes s h = record {
  closed = refl;
  finished = refl;
  planned = refl;
  named = refl;
  later = h;
}

abbrev Stepped : Run → Sink → Bool × Sink → Type 0
Stepped run s r =
    Kept s r.1
    × (r.0 ≡ false
        → (i : ℕ) × (s.tries ≤ i) × (i < r.1.tries) × (is_interruption (run.outcome i) ≡ true))

module _ (zip : Zipfile) (max_bytes : ℕ) (filename : Text) (run : Run) where
  attach-Stepped :
      (item : Item) (s c : Sink) (o : Outcome)
      → Kept s c
      → c.tries ≡ s.tries
      → run.outcome c.tries ≡ o
      → Stepped run s (attach zip max_bytes filename run item o (record c { tries = c.tries + 1 }))
  unfolding attach mark_missing mark_confirmed is_interruption
  attach-Stepped item s c o k t e = by_outcome o e
    where
      again : Kept s (record c { tries = c.tries + 1 })
      again = Kept-trans s c _ k (Kept-changes c (omega arith))

      at :
          (o : Outcome)
          → run.outcome c.tries ≡ o
          → is_interruption o ≡ true
          → (i : ℕ) × (s.tries ≤ i) × (i < c.tries + 1) × (is_interruption (run.outcome i) ≡ true)
      at o e h = (c.tries, omega (arith, t), omega arith, ap is_interruption e ∙ h)

      by_outcome :
          (o : Outcome)
          → run.outcome c.tries ≡ o
          → Stepped run s
              (attach zip max_bytes filename run item o (record c { tries = c.tries + 1 }))
      by_outcome attached e = (Kept-trans s c _ k (Kept-changes c (omega arith)), λ h. cc)
      by_outcome not_attached e = (Kept-trans s c _ k (Kept-changes c (omega arith)), λ h. cc)
      by_outcome interrupted e = (again, λ h. at interrupted e refl)
      by_outcome interrupted_late e =
          (Kept-trans s c _ k (Kept-changes c (omega arith)), λ h. at interrupted_late e refl)

  attempt-Stepped :
      (plan : Finish) (item : Item) (s : Sink)
      → Stepped run s (attempt zip max_bytes filename run plan item s)
  unfolding attempt
  attempt-Stepped plan item s =
      let c = record s { missing = cleared item.members s.missing } in
      let k : Kept s c = Kept-changes s (omega arith) in
      elim (Bool-cases
        (is_empty item.members && not (carries_manifest zip max_bytes filename run plan item c))) [
          | inl e ↦ rw e (Kept-changes s (omega arith), λ h. cc)
          | inr e ↦ rw e (attach-Stepped item s c (run.outcome c.tries) k refl refl)
        ]

  visit-Stepped :
      (plan : Finish) (item : Item) (s : Sink)
      → Stepped run s (visit zip max_bytes filename run plan item s)
  unfolding visit mark_missing mark_confirmed
  visit-Stepped plan item s = elim (Bool-cases (contains item.name s.downloads)) [
    | inl e ↦ rw e (Kept-changes s (omega arith), λ h. cc)
    | inr e ↦ elim (Bool-cases (contains item.name s.attempted)) [
      | inl f ↦ rw (e, f) (Kept-changes s (omega arith), λ h. cc)
      | inr f ↦ rw (e, f) (attempt-Stepped plan item s)
    ]
  ]

  visit_all-Stepped :
      (plan : Finish) (items : List Item) (s : Sink)
      → Stepped run s (visit_all zip max_bytes filename run plan items s)
  unfolding visit_all
  visit_all-Stepped plan [] s = (Kept-changes s (omega arith), λ h. cc)
  visit_all-Stepped plan (item ∷ items) s =
      let (kept, stop) = visit-Stepped plan item s in
      let after = (visit zip max_bytes filename run plan item s).1 in
      let (kept₂, stop₂) = visit_all-Stepped plan items after in
      elim (Bool-cases (visit zip max_bytes filename run plan item s).0) [
        | inl e ↦ rw e (
          Kept-trans s after _ kept kept₂,
          λ h. let (i, low, high, bad) = stop₂ h in (i, omega (arith, kept.later, low), high, bad),
        )
        | inr e ↦ rw e (kept, λ h. stop e)
      ]

-- Calls of finish one after another, as long as it is called.
unfoldable pub calls : (Text → Sink → Done (List Text) × Sink) → ℕ → Text → Sink → Sink
calls f zero m s = s
calls f (suc k) m s = calls f k m (f m s).1

-- A sink whose finalization under a manifest's name has not started or goes on.
abbrev pub SameName : Text → Option Finish → Text → Type 0
SameName m none name = Unit {0}
SameName m (some plan) name = text_eq m name ≡ true

pub record IsOpen (m : Text) (s : Sink) : Type 0 where
  pub is_not_closed : s.is_closed ≡ false
  pub is_not_finished : s.is_finished ≡ false
  pub same_name : SameName m s.finish_parts s.manifest_filename

module _ (zip : Zipfile) (max_bytes : ℕ) (filename : Text) (run : Run) where
  -- A call of finish ends, or it leaves the sink open behind an interrupted attachment.
  abbrev Ended : Text → ℕ → Sink → Type 0
  Ended m tries s =
      (s.is_finished ≡ true)
      ⊎ (IsOpen m s
          × ((i : ℕ) × (tries ≤ i) × (i < s.tries) × (is_interruption (run.outcome i) ≡ true)))

  finish_planned-Ended :
      (m : Text) (plan : Finish) (s : Sink)
      → s.is_closed ≡ false
      → s.is_finished ≡ false
      → s.finish_parts ≡ some plan
      → text_eq m s.manifest_filename ≡ true
      → Ended m s.tries (finish_planned zip max_bytes filename run plan s).1
  unfolding finish_planned
  finish_planned-Ended m plan s c f p e =
      let items = first_last (items_from filename (length plan.parts) 0 plan.parts) in
      let (k, stop) = visit_all-Stepped zip max_bytes filename run plan items s in
      let after = (visit_all zip max_bytes filename run plan items s).1 in
      elim (Bool-cases (visit_all zip max_bytes filename run plan items s).0) [
        | inl whole ↦ rw whole (inl refl)
        | inr part ↦ rw part (
            inr (
              record {
                is_not_closed = k.closed ∙ c;
                is_not_finished = k.finished ∙ f;
                same_name =
                    subst (λ x. SameName m x after.manifest_filename) (sym (k.planned ∙ p))
                      (ap (text_eq m) k.named ∙ e);
              },
              stop part,
            ))
      ]

  finish_from-Ended :
      (m : Text) (s : Sink) (planned : Option Finish)
      → s.is_closed ≡ false
      → s.is_finished ≡ false
      → s.finish_parts ≡ planned
      → SameName m planned s.manifest_filename
      → Ended m s.tries (finish_from zip max_bytes filename run m s planned).1
  unfolding finish_from prepare mark_missing
  finish_from-Ended m s none c f e same =
      let fresh = prepare zip max_bytes filename run m s in
      finish_planned-Ended m fresh.0 fresh.1 c f refl (text_eq_refl m)
  finish_from-Ended m s (some planned) c f e same =
      rw same (finish_planned-Ended m planned s c f e same)

  finish-Ended :
      (m : Text) (s : Sink) → IsOpen m s → Ended m s.tries (finish zip max_bytes filename run m s).1
  unfolding finish
  finish-Ended m s o =
      let started = record s { is_finalizing = true } in
      let opened : finish zip max_bytes filename run m s
          ≡ finish_from zip max_bytes filename run m started s.finish_parts =
        rw (o.is_not_finished, o.is_not_closed) refl in
      subst (λ r. Ended m s.tries r.1) (sym opened)
        (finish_from-Ended m started s.finish_parts o.is_not_closed o.is_not_finished refl
          o.same_name)

  finished_stays :
      (k : ℕ) (m : Text) (s : Sink)
      → s.is_finished ≡ true
      → (calls (finish zip max_bytes filename run) k m s).is_finished ≡ true
  unfolding calls finish
  finished_stays zero m s h = h
  finished_stays (suc k) m s h =
      let same : (finish zip max_bytes filename run m s).1 ≡ s = rw h refl in
      subst (λ x. (calls (finish zip max_bytes filename run) k m x).is_finished ≡ true) (sym same)
        (finished_stays k m s h)

  calls_within :
      (limit k : ℕ) (m : Text) (s : Sink)
      → ((i : ℕ) → limit ≤ i → is_interruption (run.outcome i) ≡ false)
      → limit ≤ s.tries + k
      → IsOpen m s
      → (calls (finish zip max_bytes filename run) (suc k) m s).is_finished ≡ true
  unfolding calls
  calls_within limit zero m s calm enough o = elim (finish-Ended m s o) [
    | inl e ↦ e
    | inr (open', (i, low, high, bad)) ↦ absurd (let b = calm i (omega arith) in cc)
  ]
  calls_within limit (suc k) m s calm enough o = elim (finish-Ended m s o) [
    | inl e ↦ finished_stays (suc k) m _ e
    | inr (open', (i, low, high, bad)) ↦ calls_within limit k m _ calm (omega arith) open'
  ]

  -- Finalization ends when the interruptions do: if no attachment from the limit-th on is interrupted,
  -- at most one call of finish more than the limit finishes the sink, whether its finalization has
  -- started before under this manifest's name or not.
  pub calls-finish :
      (limit : ℕ) (m : Text) (s : Sink)
      → ((i : ℕ) → limit ≤ i → is_interruption (run.outcome i) ≡ false)
      → IsOpen m s
      → (calls (finish zip max_bytes filename run) (suc limit) m s).is_finished ≡ true
  calls-finish limit m s calm o = calls_within limit limit m s calm (omega arith) o
