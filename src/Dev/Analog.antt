-- ===== src/Dev/Analog.antt =====
-- `analogRaw2EGU` and `analogEGU2Raw` of coreApp/src/psc/devcommon.h. The machine's floating point is
-- a parameter.
pub mod Inverse
use pscdrv.Common.{
  ℕ, Bool, true, false, not, ◌≡◌, if◌then◌else◌, refl, ◌⊎◌, inl, inr, Bool-cases, ◌∙◌, ap, arith,
}
use pscdrv.Wire.{Width}

-- `double`: its operations, and what a C cast makes of a `float` or `double` of some width.
pub record Floats : Type 1 where
  pub Real : Type 0
  pub add : Real → Real → Real
  pub sub : Real → Real → Real
  pub mul : Real → Real → Real
  pub div : Real → Real → Real
  pub is_zero : Real → Bool
  pub is_nan : Real → Bool
  pub of_bits : Width → ℕ → Real
  pub to_bits : Width → Real → ℕ

-- The fields of an analog record. `linear`: LINR is LINEAR or SLOPE.
pub record Scaling (Real : Type 0) : Type 0 where
  pub roff : Real
  pub aslo : Real
  pub aoff : Real
  pub eoff : Real
  pub eslo : Real
  pub linear : Bool

module _ (fl : Floats) where
  open fl use {Real, add, sub, mul, div, is_zero}

  unfoldable pub raw_to_egu : Scaling Real → Real → Real
  raw_to_egu s rval =
      let v = add rval s.roff in
      let v' = add (if is_zero s.aslo then v else mul v s.aslo) s.aoff in
      if s.linear then mul (add v' s.eoff) s.eslo else v'

  unfoldable pub egu_to_raw : Scaling Real → Real → Real
  egu_to_raw s v =
      let v' = sub (if s.linear then div (sub v s.eoff) s.eslo else v) s.aoff in
      sub (if is_zero s.aslo then v' else div v' s.aslo) s.roff
