-- ===== src/Envelope/Totals.antt =====
-- That the counts of jobs/envelope.py add up.
use nautobot_testsuite.Base.{
  ℕ, ◌+◌, ◌≡◌, refl, ◌↔◌, ap, Bool, true, false, not, ◌||◌, List, [], ◌∷◌, map, arith,
  if◌then◌else◌, length, all, any, Text, codes, text_eq, Dict, lookup, put, lookup-put, Bool-cases,
  inl, inr, length-map, eq_of_text_eq, &&-true, sym,
}
use nautobot_testsuite.Envelope.Summary.{
  count_of, tally, envelope_summary, Outcome, Body, is_false, failed_evaluations, result_of,
  diffs_of, sum_diffs, summarize_report,
}

-- How often a text stands in a list.
unfoldable pub occurrences : Text → List Text → ℕ
occurrences k [] = 0
occurrences k (x ∷ xs) = (if text_eq x k then 1 else 0) + occurrences k xs

count_of-put :
    (k status : Text) (n : ℕ) (counts : Dict ℕ)
    → count_of k (put status n counts) ≡ (if text_eq status k then n else count_of k counts)
unfolding count_of
count_of-put k status n counts = ground (arith, lookup-put status k n counts)

count_of-tally :
    (k : Text) (statuses : List Text) (counts : Dict ℕ)
    → count_of k (tally statuses counts) ≡ count_of k counts + occurrences k statuses
unfolding tally occurrences
count_of-tally k [] counts = omega arith
count_of-tally k (status ∷ statuses) counts =
    let bumped = put status (count_of status counts + 1) counts in
    elim (Bool-cases (text_eq status k)) [
      | inl same ↦
          let e = eq_of_text_eq status k same in
          let ih = count_of-tally k statuses bumped in
          let here = count_of-put k status (count_of status counts + 1) counts in
          let counted = ap (λ x. count_of x counts) e in ground (arith, ih, here, counted)
      | inr other ↦ ground (
        arith,
        count_of-tally k statuses bumped,
        count_of-put k status (count_of status counts + 1) counts,
      )
    ]

count_of-tally_nil :
    (k : Text) (statuses : List Text) → count_of k (tally statuses []) ≡ occurrences k statuses
count_of-tally_nil k statuses =
    unfold count_of lookup in omega (arith, count_of-tally k statuses [])

-- Under each status the mini-report of a capture has the number of checks with that status.
pub envelope_summary_lem :
    (k : Text) (statuses : List Text)
    → count_of k (envelope_summary statuses) ≡ occurrences k statuses
unfolding envelope_summary
envelope_summary_lem k statuses = count_of-tally_nil k statuses

-- One of the results that a comparison gives.
unfoldable pub is_known : Text → Bool
is_known result =
    text_eq result (codes "pass")
    || text_eq result (codes "diffs")
    || text_eq result (codes "failed")
    || text_eq result (codes "skipped")
    || text_eq result (codes "info")

abbrev weight : Text → Text → ℕ
weight result name = if text_eq result name then 1 else 0

-- A known result counts once.
known_weight :
    (x : Text)
    → is_known x ≡ true
    → weight x (codes "pass")
        + weight x (codes "diffs")
        + weight x (codes "failed")
        + weight x (codes "skipped")
        + weight x (codes "info")
      ≡ 1
unfolding is_known text_eq
known_weight x h = elim (Bool-cases (text_eq x (codes "pass"))) [
  | inl same ↦ rw (eq_of_text_eq x (codes "pass") same) refl
  | inr p ↦ elim (Bool-cases (text_eq x (codes "diffs"))) [
    | inl same ↦ rw (eq_of_text_eq x (codes "diffs") same) refl
    | inr d ↦ elim (Bool-cases (text_eq x (codes "failed"))) [
      | inl same ↦ rw (eq_of_text_eq x (codes "failed") same) refl
      | inr f ↦ elim (Bool-cases (text_eq x (codes "skipped"))) [
        | inl same ↦ rw (eq_of_text_eq x (codes "skipped") same) refl
        | inr s ↦ elim (Bool-cases (text_eq x (codes "info"))) [
          | inl same ↦ rw (eq_of_text_eq x (codes "info") same) refl
          | inr i ↦ absurd (cc (ap not (sym (rw (p, d, f, s, i) at h))))
        ]
      ]
    ]
  ]
]

known_once :
    (results : List Text)
    → all is_known results ≡ true
    → occurrences (codes "pass") results
        + occurrences (codes "diffs") results
        + occurrences (codes "failed") results
        + (occurrences (codes "skipped") results + occurrences (codes "info") results)
      ≡ length results
unfolding occurrences all
known_once [] h = omega arith
known_once (x ∷ xs) h =
    let (known, later) = &&-true _ _ h in
    let one = known_weight x known in omega (arith, one, known_once xs later)

-- A report in which every check has one of the known results is summed up without a loss: the
-- passed, the different, the failed and the skipped checks are all the checks.
pub summarize_report-partition :
    {A : Type 0} (bodies : List (Body A))
    → all is_known (map result_of bodies) ≡ true
    → let s = summarize_report bodies in
      s.checks_passed + s.checks_with_diffs + s.checks_failed + s.checks_skipped ≡ s.checks_total
unfolding summarize_report
summarize_report-partition bodies h =
    let results = map result_of bodies in
    let counts = tally results [] in
    let total : count_of (codes "pass") counts
          + count_of (codes "diffs") counts
          + count_of (codes "failed") counts
          + (count_of (codes "skipped") counts + count_of (codes "info") counts)
        ≡ length bodies =
      omega (
        arith,
        known_once results h,
        count_of-tally_nil (codes "pass") results,
        count_of-tally_nil (codes "diffs") results,
        count_of-tally_nil (codes "failed") results,
        count_of-tally_nil (codes "skipped") results,
        count_of-tally_nil (codes "info") results,
        length-map result_of bodies,
      ) in
    total

-- A check with no bucket entry and no failed evaluation.
abbrev pub IsUnchanged : {A : Type 0} → Body A → Type 0
IsUnchanged body =
    (body.added ≡ [])
    × (body.removed ≡ [])
    × (body.changed ≡ [])
    × (any (λ e. is_false e.within || is_false e.ok) body.evaluations ≡ false)

abbrev pub AreUnchanged : {A : Type 0} → List (Body A) → Type 0
AreUnchanged [] = Unit {0}
AreUnchanged (body ∷ bodies) = IsUnchanged body × AreUnchanged bodies

failed_evaluations_zero :
    (es : List Outcome)
    → (failed_evaluations es ≡ 0) ↔ (any (λ e. is_false e.within || is_false e.ok) es ≡ false)
unfolding failed_evaluations any
failed_evaluations_zero [] = (λ _. refl, λ _. refl)
failed_evaluations_zero (e ∷ es) =
    let rest = failed_evaluations_zero es in (λ h. ground (arith, rest), λ h. ground (arith, rest))

empty_of_length : {A : Type 0} (xs : List A) → length xs ≡ 0 → xs ≡ []
empty_of_length [] h = refl
empty_of_length (x ∷ xs) h = absurd (omega arith)

diffs_of_zero : {A : Type 0} (body : Body A) → (diffs_of body ≡ 0) ↔ IsUnchanged body
unfolding diffs_of
diffs_of_zero body = (
  λ h. (
    empty_of_length body.added (omega arith),
    empty_of_length body.removed (omega arith),
    empty_of_length body.changed (omega arith),
    (failed_evaluations_zero body.evaluations).0 (omega arith),
  ),
  λ (a, r, c, e). omega (
    arith,
    ap length a,
    ap length r,
    ap length c,
    (failed_evaluations_zero body.evaluations).1 e,
  ),
)

-- The total of a report's differences is 0 exactly when no check has an entry in a bucket or a
-- failed evaluation.
pub diffs_total_zero_iff :
    {A : Type 0} (bodies : List (Body A))
    → ((summarize_report bodies).diffs_total ≡ 0) ↔ AreUnchanged bodies
unfolding summarize_report sum_diffs
diffs_total_zero_iff [] = (λ _. tt, λ _. refl)
diffs_total_zero_iff (body ∷ bodies) =
    let here = diffs_of_zero body in
    let rest = diffs_total_zero_iff bodies in
    (λ h. (here.0 (omega arith), rest.0 (omega arith)), λ h. omega (arith, here.1 h.0, rest.1 h.1))
