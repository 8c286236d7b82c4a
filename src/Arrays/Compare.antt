-- ===== src/Arrays/Compare.antt =====
-- `subArrayCompare` of pscApp/src/aSubOperations.cpp.
pub mod Verdicts
use pscdrv.Common.{ℕ, List, [], ◌∷◌, length, ◌==◌, Option, none, some, if◌then◌else◌}
use pscdrv.Floating.{Floating}

-- What is stored in VALA: 0, 1, 2, and the char -2.
pub data Tolerance : Type 0 where
  within out_of_tolerance far_out wrong_table : Tolerance

module _ (fl : Floating) (coeff : fl.Float) where
  open fl use {Float, widen}

  -- The loop: A, B and `status`. The arrays have the same length.
  unfoldable pub compare_from : List Float → List Float → Tolerance → Tolerance
  compare_from [] sub status = status
  compare_from (t ∷ tol) [] status = status
  compare_from (t ∷ tol) (x ∷ sub) status =
      let signal = widen (fl.abs x) in
      let status' = if fl.lt (widen t) signal then out_of_tolerance else status in
      let rest = compare_from tol sub status' in
      if fl.le (widen t) (fl.literal "0.0")
      then wrong_table
      else if fl.lt (widen (fl.mul_float t coeff)) signal
      then far_out
      else rest

  -- What is stored in VALA, if anything.
  unfoldable pub array_compare : List Float → List Float → Option Tolerance
  unfolding compare_from
  array_compare tol sub =
      if length tol == length sub then some (compare_from tol sub within) else none
