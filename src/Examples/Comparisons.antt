-- ===== src/Examples/Comparisons.antt =====
-- Concrete comparisons (jobs/diffcore.py), with natural numbers for numbers.
use nautobot_testsuite.Base.{
  ℕ, ◌-◌, ◌*◌, ◌/◌, ◌≡◌, ◌↔◌, true, false, Option, none, some, List, [], ◌∷◌, leb, ◌==◌, Text,
  codes, Dict, lookup, is_some,
}
use nautobot_testsuite.Numeric.{Numeric}
use nautobot_testsuite.DiffCore.Values.{Value, num, text, value_eq}
use nautobot_testsuite.DiffCore.Config.{Compare, no_compare}
use nautobot_testsuite.DiffCore.Report.{pass, Entry}
use nautobot_testsuite.DiffCore.Equality.{
  get_value, diff_equality_set, diff_equality_scalar, diff_presence,
}
use nautobot_testsuite.DiffCore.Numbers.{diff_tolerance, diff_capability}
use nautobot_testsuite.DiffCore.Agreement.{Agrees, diff_equality_set-pass_iff}
use nautobot_testsuite.DiffCore.Buckets.{
  IsBucket, diff_equality_set-buckets, diff_equality_scalar-pass_iff, diff_presence-pass_iff,
}
use nautobot_testsuite.DiffCore.Counts.{
  StillCapable, KeepsBand, compared, diff_capability-pass_iff, diff_tolerance-pass_iff,
}

abbrev pub naturals : Numeric
naturals = record {
  Number = ℕ;
  num_eq = λ a b. a == b;
  num_le = λ a b. leb a b;
  num_sub = λ a b. a - b;
  num_mul = λ a b. a * b;
  num_div = λ a b. a / b;
  num_abs = λ a. a;
  num_round = λ a. a;
  of_ℕ = λ a. a;
}

abbrev before_view : Dict (Value ℕ)
before_view = (codes "peer-1", num 3) ∷ (codes "peer-2", text (codes "up")) ∷ []

abbrev after_view : Dict (Value ℕ)
after_view = (codes "peer-2", text (codes "up")) ∷ []

abbrev ignoring : Compare ℕ
ignoring = record no_compare { ignore_removed = true }

diff_equality_set-pass_iff_example :
    ((diff_equality_set naturals before_view after_view ignoring).result ≡ pass)
    ↔ ((k : Text) → Agrees naturals ignoring (lookup k before_view) (lookup k after_view))
diff_equality_set-pass_iff_example =
    diff_equality_set-pass_iff naturals before_view after_view ignoring

diff_equality_set-buckets_example :
    let d = diff_equality_set naturals before_view after_view ignoring in
    IsBucket d.added after_view before_view
    × (ignoring.ignore_removed ≡ false
        → IsBucket d.removed before_view after_view × (d.removed_ignored ≡ none))
    × (ignoring.ignore_removed ≡ true
        → (d.removed ≡ [])
          × ((gone : List (Entry ℕ)) × (d.removed_ignored ≡ some gone)
              × IsBucket gone before_view after_view))
diff_equality_set-buckets_example =
    diff_equality_set-buckets naturals before_view after_view ignoring

diff_equality_scalar-pass_iff_example :
    ((diff_equality_scalar naturals before_view after_view).result ≡ pass)
    ↔ ((k : Text) → value_eq naturals (get_value k before_view) (get_value k after_view) ≡ true)
diff_equality_scalar-pass_iff_example =
    diff_equality_scalar-pass_iff naturals before_view after_view

diff_presence-pass_iff_example :
    ((diff_presence before_view after_view).result ≡ pass)
    ↔ ((k : Text) → is_some (lookup k before_view) ≡ is_some (lookup k after_view))
diff_presence-pass_iff_example = diff_presence-pass_iff before_view after_view

abbrev counts_before : Dict (Option ℕ)
counts_before = (codes "ipsec", some 40) ∷ (codes "voip", some 2) ∷ []

abbrev counts_after : Dict (Option ℕ)
counts_after = (codes "ipsec", some 12) ∷ []

diff_capability-pass_iff_example :
    ((diff_capability naturals counts_before counts_after no_compare).0 ≡ pass) ↔ (
      (k : Text)
      → StillCapable naturals no_compare (lookup k counts_before) (lookup k counts_after))
diff_capability-pass_iff_example =
    diff_capability-pass_iff naturals counts_before counts_after no_compare

diff_tolerance-pass_iff_example :
    ((diff_tolerance naturals before_view after_view no_compare).0 ≡ pass) ↔ (
      (fld : Text)
      → compared naturals no_compare fld ≡ true
      → KeepsBand naturals no_compare fld (get_value fld before_view) (get_value fld after_view))
diff_tolerance-pass_iff_example = diff_tolerance-pass_iff naturals before_view after_view no_compare
