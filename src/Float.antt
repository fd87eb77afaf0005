-- ===== src/Float.antt =====
-- Python's floats where the program uses them: chunk weights. IEEE arithmetic is not the program's
-- code, so the type and its operations are parameters. `IsOrdered` is what sorting relies on; it
-- holds of floats that are not NaN.
use gleanflow.Prelude.{ℕ, ◌+◌, ◌/◌, ◌≡◌, Bool, true, false, ltb, leb, arith}

pub record FloatOps (W : Type 0) : Type 0 where
  pub fzero : W
  pub fone : W
  -- `float(n)` for an int `n`
  pub of_int : ℕ → W
  pub add : W → W → W
  -- `x / n` for an int `n`
  pub div : W → ℕ → W
  pub lt : W → W → Bool
  pub le : W → W → Bool

-- `lt` is a strict weak order: what is not above can be chained.
pub record IsOrdered {W : Type 0} (f : FloatOps W) : Type 0 where
  pub asym : (a b : W) → f.lt a b ≡ true → f.lt b a ≡ false
  pub neg_trans : (a b c : W) → f.lt a b ≡ false → f.lt b c ≡ false → f.lt a c ≡ false

-- Whole numbers, for tests.
instance abbrev pub nat_float : FloatOps ℕ
nat_float = record {
  fzero = 0;
  fone = 1;
  of_int = λ n. n;
  add = ◌+◌;
  div = ◌/◌;
  lt = ltb;
  le = leb;
}

pub nat_float-IsOrdered : IsOrdered nat_float
nat_float-IsOrdered = record { asym = λ a b h. ground arith; neg_trans = λ a b c h k. ground arith }
