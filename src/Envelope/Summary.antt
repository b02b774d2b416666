-- ===== src/Envelope/Summary.antt =====
-- `envelope_summary` and `summarize_report` (jobs/envelope.py).
use nautobot_testsuite.Base.{
  ℕ, ◌+◌, Bool, false, not, ◌||◌, Option, none, some, List, [], ◌∷◌, map, if◌then◌else◌, length,
  Text, codes, Dict, lookup, put,
}

-- counts.get(status, 0)
unfoldable pub count_of : Text → Dict ℕ → ℕ
unfolding lookup
count_of status counts = elim (lookup status counts) [ none ↦ 0 | some n ↦ n ]

-- The loop `counts[status] = counts.get(status, 0) + 1`.
unfoldable pub tally : List Text → Dict ℕ → Dict ℕ
unfolding count_of put
tally [] counts = counts
tally (status ∷ statuses) counts = tally statuses (put status (count_of status counts + 1) counts)

-- envelope_summary, on the statuses of the checks
unfoldable pub envelope_summary : List Text → Dict ℕ
envelope_summary statuses = tally statuses []

-- entry.get("within") and entry.get("ok") of an evaluation; none is a missing key or None
pub record Outcome : Type 0 where
  pub within : Option Bool
  pub ok : Option Bool

-- What the summary reads of one check's result. A missing bucket is an empty one.
pub record Body {ℓ} (A : Type ℓ) : Type ℓ where
  pub result : Option Text
  pub added : List A
  pub removed : List A
  pub changed : List A
  pub evaluations : List Outcome

pub record Summary : Type 0 where
  pub checks_total : ℕ
  pub checks_passed : ℕ
  pub checks_with_diffs : ℕ
  pub checks_failed : ℕ
  pub checks_skipped : ℕ
  pub diffs_total : ℕ

-- value is False
unfoldable pub is_false : Option Bool → Bool
is_false none = false
is_false (some b) = not b

unfoldable pub failed_evaluations : List Outcome → ℕ
unfolding is_false
failed_evaluations [] = 0
failed_evaluations (e ∷ evaluations) =
    (if is_false e.within || is_false e.ok then 1 else 0) + failed_evaluations evaluations

module _ {ℓ} {A : Type ℓ} where
  -- body.get("result", "unknown")
  unfoldable pub result_of : Body A → Text
  result_of body = elim body.result [ none ↦ codes "unknown" | some result ↦ result ]

  unfoldable pub diffs_of : Body A → ℕ
  unfolding failed_evaluations
  diffs_of body =
      length body.added
      + length body.removed
      + length body.changed
      + failed_evaluations body.evaluations

  unfoldable pub sum_diffs : List (Body A) → ℕ
  unfolding diffs_of
  sum_diffs [] = 0
  sum_diffs (body ∷ bodies) = diffs_of body + sum_diffs bodies

  -- summarize_report, on the values of report["checks"]
  unfoldable pub summarize_report : List (Body A) → Summary
  unfolding tally count_of sum_diffs result_of
  summarize_report bodies =
      let by_result = tally (map result_of bodies) [] in
      record {
        checks_total = length bodies;
        checks_passed = count_of (codes "pass") by_result;
        checks_with_diffs = count_of (codes "diffs") by_result;
        checks_failed = count_of (codes "failed") by_result;
        checks_skipped = count_of (codes "skipped") by_result + count_of (codes "info") by_result;
        diffs_total = sum_diffs bodies;
      }
