-- ===== src/Numeric.antt =====
-- Python's numbers, as jobs/diffcore.py uses them. An `int` or a `float` of the interpreter is not
-- code of this repository, so the type and its operations are a parameter of the models.
use nautobot_testsuite.Base.{ℕ, Bool}

pub record Numeric : Type 1 where
  pub Number : Type 0
  -- x == y, x <= y
  pub num_eq : Number → Number → Bool
  pub num_le : Number → Number → Bool
  pub num_sub : Number → Number → Number
  pub num_mul : Number → Number → Number
  pub num_div : Number → Number → Number
  pub num_abs : Number → Number
  -- round(x, 1)
  pub num_round : Number → Number
  pub of_ℕ : ℕ → Number
