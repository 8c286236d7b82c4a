-- ===== src/Floating/Whole.antt =====
-- Whole numbers in the place of both floating types, for concrete runs.
use pscdrv.Common.{ℕ, ltb, leb, ◌==◌, ◌+◌, ◌-◌, ◌*◌, ◌/◌, ◌^◌}
use pscdrv.Floating.{Floating}

-- No number is below 0, so a difference is a distance; every literal is the one given.
abbrev pub whole_numbers : ℕ → Floating
whole_numbers n = record {
  Float = ℕ;
  Double = ℕ;
  sub = λ x y. (x - y) + (y - x);
  mul_float = ◌*◌;
  add_float = ◌+◌;
  div_float = ◌/◌;
  abs = λ x. x;
  widen = λ x. x;
  narrow = λ x. x;
  add = ◌+◌;
  mul = ◌*◌;
  sub_double = λ x y. (x - y) + (y - x);
  div = ◌/◌;
  pow = ◌^◌;
  gt = λ x y. ltb y x;
  lt = ltb;
  le = leb;
  eq = ◌==◌;
  sqrt = λ x. x;
  of_int = λ x. x;
  minus = λ x. 0;
  literal = λ s. n;
  to_int = λ x. x;
  to_long = λ x. x;
  of_long = λ x. x;
}
