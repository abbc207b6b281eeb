-- ===== src/Floats.antt =====
-- Python's floats and the functions of `math` that the pipeline uses, as a parameter: a type of
-- values with its tests and operations. Literals are given in hundredths; a comparison with NaN
-- answers as the tests of the parameter say.
use provenancerank.Prelude.{ℕ, Bool, List, if◌then◌else◌}
pub mod Sample

pub record Float : Type 1 where
  pub Value : Type 0
  pub less : Value → Value → Bool
  -- Python's `>=`
  pub geq : Value → Value → Bool
  pub same : Value → Value → Bool
  pub hundredths : ℕ → Value
  pub plus : Value → Value → Value
  pub minus : Value → Value → Value
  pub times : Value → Value → Value
  pub over : Value → Value → Value
  -- `float(k)` of a natural number, and `a / b` of two
  pub of_nat : ℕ → Value
  pub ratio : ℕ → ℕ → Value
  -- `float(a - b)` of two whole numbers, which may be below 0
  pub of_difference : ℕ → ℕ → Value
  -- `np.mean`
  pub mean : List Value → Value
  pub round3 : Value → Value
  -- `Series.sum`, and `int` of a float that is not below 0
  pub total : List Value → Value
  pub whole : Value → ℕ
  -- `.astype(np.float32)`
  pub single : Value → Value
  -- `np.abs`
  pub absolute : Value → Value
  pub sqrt : Value → Value
  pub exp : Value → Value
  -- `2.0 ** x`
  pub power_of_two : Value → Value
  pub log1p : Value → Value
  pub tanh : Value → Value

module _ (n : Float) where
  open n use {Value, less, hundredths}

  -- `.clip(low, high)` and `np.clip`
  unfoldable pub clip : Value → Value → Value → Value
  clip low high x = if less x low then low else if less high x then high else x

  -- `min(a, b)`, which stays with `a` unless `b` is less
  unfoldable pub min_of : Value → Value → Value
  min_of a b = if less b a then b else a

  -- `max(a, b)`, which stays with `a` unless `b` is greater
  unfoldable pub max_of : Value → Value → Value
  max_of a b = if less a b then b else a

  -- `float(flag)`
  unfoldable pub of_bool : Bool → Value
  of_bool b = if b then hundredths 100 else hundredths 0
