-- ===== src/DiffCore/Report.antt =====
-- The diff dicts that the comparisons return (jobs/diffcore.py, "diff output shape").
use nautobot_testsuite.Base.{◌&&◌, Option, List, Text, is_empty, if◌then◌else◌}
use nautobot_testsuite.DiffCore.Values.{Value}

pub data Verdict : Type 0 where
  pass diffs info : Verdict

-- {"key": ..., "value": ...}; a comparison of presence alone gives no value
pub record Entry (N : Type 0) : Type 0 where
  pub key : Text
  pub value : Option (Value N)

-- {"key": ..., "field": ..., "old": ..., "new": ...}, with the section of a text hunk
pub record Change (N : Type 0) : Type 0 where
  pub key : Text
  pub field : Option Text
  pub old : Value N
  pub new : Value N
  pub section : List Text

pub record Diff (N : Type 0) : Type 0 where
  pub result : Verdict
  pub added : List (Entry N)
  pub removed : List (Entry N)
  pub changed : List (Change N)
  pub removed_ignored : Option (List (Entry N))

-- "diffs" if (added or removed or changed) else "pass"
unfoldable pub verdict {ℓ κ μ} :
    {A : Type ℓ} {B : Type κ} {C : Type μ} → List A → List B → List C → Verdict
unfolding is_empty
verdict added removed changed =
    if is_empty added && is_empty removed && is_empty changed then pass else diffs
