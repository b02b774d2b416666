-- ===== src/DiffCore/Numbers.antt =====
-- `_diff_tolerance` and `_diff_capability` (jobs/diffcore.py): the modes that evaluate numbers.
use nautobot_testsuite.Base.{
  Bool, true, false, ◌||◌, not, Option, none, some, List, map, if◌then◌else◌, Text, codes, text_eq,
  Dict, lookup, keys, sorted_set, select, is_empty, is_some, any,
}
use nautobot_testsuite.Numeric.{Numeric}
use nautobot_testsuite.DiffCore.Values.{Value}
use nautobot_testsuite.DiffCore.Config.{Compare, FieldConfig, Band, no_band, field_cfg}
use nautobot_testsuite.DiffCore.Report.{Verdict, pass, diffs}
use nautobot_testsuite.DiffCore.Band.{within_band}
use nautobot_testsuite.DiffCore.Equality.{all_keys, as_number, get_value}

-- One entry of "evaluations" of the tolerance mode.
pub record Evaluation (N : Type 0) : Type 0 where
  pub field : Text
  pub old : Value N
  pub new : Value N
  pub within : Option Bool
  pub delta : Option N
  pub delta_pct : Option N
  pub note : Option Text

-- One entry of "evaluations" of the capability mode. A count is a number, or none where the
-- collector could not read it; `old` and `new` are `dict.get`, none too where the key is absent.
pub record Gate (N : Type 0) : Type 0 where
  pub key : Text
  pub old : Option N
  pub new : Option N
  pub gating : Option Bool
  pub ok : Option Bool
  pub note : Option Text

-- entry["within"] is False, entry["ok"] is False
unfoldable pub is_miss : Option Bool → Bool
is_miss none = false
is_miss (some ok) = not ok

-- "diffs" if misses else "pass"
unfoldable pub miss_verdict : List (Option Bool) → Verdict
unfolding any is_miss
miss_verdict outcomes = if any is_miss outcomes then diffs else pass

-- bool(cfg): a config with no key is falsy
has_keys : {N : Type 0} → FieldConfig N → Bool
has_keys cfg =
    is_some cfg.tolerance
    || is_some cfg.band.abs
    || is_some cfg.band.pct
    || is_some cfg.band.direction
    || cfg.has_others

default_band : {N : Type 0} → Compare N → Band N
default_band compare = elim compare.band [ none ↦ no_band | some b ↦ b ]

-- cfg = fields[fld] if it is a dict else {}; cfg or default_band
unfoldable pub band_for : {N : Type 0} → Compare N → Text → Band N
unfolding has_keys default_band field_cfg
band_for compare fld =
    let cfg = field_cfg compare fld in if has_keys cfg then cfg.band else default_band compare

-- dict.get of a count: None for an absent key as for an unreadable count
abbrev count_or_none : {N : Type 0} → Option (Option N) → Option N
count_or_none none = none
count_or_none (some count) = count

module _ (n : Numeric) where
  open n use {Number, num_eq, num_le, num_sub, num_mul, num_div, num_round, of_ℕ}

  -- The fields that are compared: the configured ones, else those that are a number on either side.
  unfoldable pub tolerance_fields :
      Dict (Value Number) → Dict (Value Number) → Compare Number → List Text
  unfolding is_empty sorted_set keys all_keys select as_number get_value
  tolerance_fields pre post compare =
      if is_empty compare.fields
      then select
          (λ fld.
            is_some (as_number n (get_value fld pre)) || is_some (as_number n (get_value fld post)))
          (all_keys pre post)
      else sorted_set (keys compare.fields)

  evaluate_numbers :
      Text → Value Number → Value Number → Band Number → Number → Number → Evaluation Number
  unfolding within_band
  evaluate_numbers fld old new band x y = record {
    field = fld;
    old = old;
    new = new;
    within = some (within_band n x y band);
    delta = some (num_sub y x);
    delta_pct =
        if num_eq x (of_ℕ 0)
        then none
        else some (num_round (num_mul (num_div (num_sub y x) x) (of_ℕ 100)));
    note = none;
  }

  not_numeric : Text → Value Number → Value Number → Evaluation Number
  not_numeric fld old new = record {
    field = fld;
    old = old;
    new = new;
    within = none;
    delta = none;
    delta_pct = none;
    note = some (codes "not numeric on both sides");
  }

  -- The body of the loop over the fields.
  unfoldable pub evaluate :
      Dict (Value Number) → Dict (Value Number) → Compare Number → Text → Evaluation Number
  unfolding band_for evaluate_numbers not_numeric as_number get_value
  evaluate pre post compare fld =
      let old = get_value fld pre in
      let new = get_value fld post in
      elim (as_number n old) [
        | none ↦ not_numeric fld old new
        | some x ↦ elim (as_number n new) [
          | none ↦ not_numeric fld old new
          | some y ↦ evaluate_numbers fld old new (band_for compare fld) x y
        ]
      ]

  unfoldable pub diff_tolerance :
      Dict (Value Number)
      → Dict (Value Number)
      → Compare Number
      → Verdict × List (Evaluation Number)
  unfolding tolerance_fields evaluate miss_verdict
  diff_tolerance pre post compare =
      let evaluations = map (evaluate pre post compare) (tolerance_fields pre post compare) in
      (miss_verdict (map (λ e. e.within) evaluations), evaluations)

  -- compare.get("floor_pre", 5), compare.get("min_post", 1)
  unfoldable pub floor_of : Compare Number → Number
  floor_of compare = elim compare.floor_pre [ none ↦ of_ℕ 5 | some floor ↦ floor ]

  unfoldable pub min_post_of : Compare Number → Number
  min_post_of compare = elim compare.min_post [ none ↦ of_ℕ 1 | some least ↦ least ]

  absent_note : Compare Number → Text
  absent_note compare =
      if elim compare.absent_post [ none ↦ false | some what ↦ text_eq what (codes "zero") ]
      then codes "absent post (counts as zero)"
      else codes "not measured post (sweep mismatch)"

  -- The branches of a bucket that was populated before. The outer option of `post` is the presence
  -- of the key, the inner one a count that could not be read.
  populated_gate :
      Compare Number → Text → Number → Option (Option Number) → Option Number → Gate Number
  unfolding floor_of min_post_of absent_note
  populated_gate compare key old found new =
      if not (num_le (floor_of compare) old)
      then record {
        key = key;
        old = some old;
        new = new;
        gating = some false;
        ok = none;
        note = none;
      }
      else elim found [
        | none ↦ record {
          key = key;
          old = some old;
          new = new;
          gating = some true;
          ok = some false;
          note = some (absent_note compare);
        }
        | some count ↦ elim count [
          | none ↦ record {
            key = key;
            old = some old;
            new = new;
            gating = some true;
            ok = some false;
            note = some (codes "post count unreadable");
          }
          | some m ↦ record {
            key = key;
            old = some old;
            new = new;
            gating = some true;
            ok = some (num_le (min_post_of compare) m);
            note = none;
          }
        ]
      ]

  -- The body of the loop over the buckets, by what the two views have under the key.
  unfoldable pub gate_at :
      Compare Number → Text → Option (Option Number) → Option (Option Number) → Gate Number
  unfolding populated_gate
  gate_at compare key none found = record {
    key = key;
    old = none;
    new = count_or_none found;
    gating = some false;
    ok = none;
    note = none;
  }
  gate_at compare key (some none) found = record {
    key = key;
    old = none;
    new = count_or_none found;
    gating = none;
    ok = none;
    note = some (codes "pre count unreadable — gating unknown");
  }
  gate_at compare key (some (some count)) found =
      populated_gate compare key count found (count_or_none found)

  unfoldable pub diff_capability :
      Dict (Option Number) → Dict (Option Number) → Compare Number → Verdict × List (Gate Number)
  unfolding all_keys miss_verdict lookup
  diff_capability pre post compare =
      let evaluations =
        map (λ key. gate_at compare key (lookup key pre) (lookup key post)) (all_keys pre post) in
      (miss_verdict (map (λ e. e.ok) evaluations), evaluations)
