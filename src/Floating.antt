-- ===== src/Floating.antt =====
-- Floating point, which the applications beside the driver compute with.
pub mod Whole
use pscdrv.Common.{ℕ, Bool, String}

-- The machine's `float` and `double`. `literal` is a number of the source with a point, `of_int` the
-- conversion of an int, `to_int` the bit pattern of a cast to int, `pow` the function of math.h; `to_long`
-- and `of_long` are the conversions of a long long, as its bit pattern.
pub record Floating : Type 1 where
  pub Float : Type 0
  pub Double : Type 0
  pub sub : Float → Float → Float
  pub mul_float : Float → Float → Float
  pub add_float : Float → Float → Float
  pub div_float : Float → Float → Float
  pub abs : Float → Float
  pub widen : Float → Double
  pub narrow : Double → Float
  pub add : Double → Double → Double
  pub mul : Double → Double → Double
  pub sub_double : Double → Double → Double
  pub div : Double → Double → Double
  pub pow : Double → ℕ → Double
  pub gt : Double → Double → Bool
  pub lt : Double → Double → Bool
  pub le : Double → Double → Bool
  pub eq : Double → Double → Bool
  pub sqrt : Double → Double
  pub of_int : ℕ → Double
  pub minus : Double → Double
  pub literal : String → Double
  pub to_int : Double → ℕ
  pub to_long : Double → ℕ
  pub of_long : ℕ → Double
