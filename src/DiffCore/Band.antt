-- ===== src/DiffCore/Band.antt =====
-- `_within_band` (jobs/diffcore.py): a tolerance band around the old value.
use nautobot_testsuite.Base.{
  Bool, true, false, ◌&&◌, Option, none, some, List, [], ◌∷◌, ◌++◌, if◌then◌else◌, Text, codes,
  text_eq, any, is_empty,
}
use nautobot_testsuite.Numeric.{Numeric}
use nautobot_testsuite.DiffCore.Config.{Band}

-- band.get("direction") == name
unfoldable pub direction_is : {N : Type 0} → Band N → Text → Bool
direction_is band name = elim band.direction [ none ↦ false | some d ↦ text_eq d name ]

module _ (n : Numeric) where
  open n use {Number, num_eq, num_le, num_sub, num_mul, num_div, num_abs, of_ℕ}

  -- The list `allowed`: one test for each bound that is given.
  abs_allowed : Option Number → Number → List Bool
  abs_allowed none delta = []
  abs_allowed (some bound) delta = num_le (num_abs delta) bound ∷ []

  pct_allowed : Option Number → Number → Number → Number → List Bool
  pct_allowed none old new delta = []
  pct_allowed (some bound) old new delta =
      if num_eq old (of_ℕ 0)
      then num_eq new (of_ℕ 0) ∷ []
      else num_le (num_mul (num_div (num_abs delta) (num_abs old)) (of_ℕ 100)) bound ∷ []

  unfoldable pub within_band : Number → Number → Band Number → Bool
  unfolding direction_is abs_allowed pct_allowed any is_empty
  within_band old new band =
      let delta = num_sub new old in
      let allowed = abs_allowed band.abs delta ++ pct_allowed band.pct old new delta in
      if direction_is band (codes "min_only") && num_le (of_ℕ 0) delta
      then true
      else if direction_is band (codes "max_only") && num_le delta (of_ℕ 0)
      then true
      else if is_empty allowed
      then num_eq delta (of_ℕ 0)
      else any (λ ok. ok) allowed
