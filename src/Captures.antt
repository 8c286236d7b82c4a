-- ===== src/Captures.antt =====
-- The subroutines of pscApp/src/aSubGen.cpp and pscApp/src/aSubEnc.cpp, on what a generator and an
-- encoder sent: `subGenTSProc`, which `subEncTSProc` repeats, `subGenVoltProc` and `subEncABProc`.
pub mod Dump
use pscdrv.Common.{
  ℕ, zero, suc, List, [], ◌∷◌, get_or, if◌then◌else◌, ◌==◌, ◌+◌, ◌-◌, ◌*◌, ◌/◌, ◌%◌, ◌^◌,
}
use pscdrv.Floating.{Floating}

module _ (fl : Floating) where
  open fl use {Double, mul, minus, of_int, of_long, to_long, literal}

  -- One time stamp: seconds and nanoseconds, as a long long.
  unfoldable pub time_stamp : Double → Double → Double
  time_stamp sec nsec = of_long ((to_long nsec + to_long sec * 2 ^ 32) % 2 ^ 64)

  -- One voltage. `code` is shifted by 8 with its sign, of which its bits below 18 show nothing.
  unfoldable pub voltage : Double → Double
  voltage x =
      let code = to_long x / 2 ^ 8 in
      if code / 2 ^ 17 % 2 == 1
      then mul (mul (of_long (2 ^ 17 - 1 - code % 2 ^ 17)) (minus (literal "0.000038"))) (of_int 4)
      else mul (mul (of_long (code % 2 ^ 17)) (literal "0.000038")) (of_int 4)

  -- The lines A and B of one sample. The cast to short goes by way of int.
  unfoldable pub lines_ab : Double → ℕ × ℕ
  lines_ab x = let tmp = fl.to_int x % 2 ^ 16 in (tmp / 2 ^ 3 % 2, tmp / 2 ^ 2 % 2)

  -- The loops, from place `i` on, for `n` places. The arrays are what memory holds at each place of A
  -- and B, and `wfLength` is 1024 whatever they have.
  unfoldable pub time_stamps : (ℕ → Double) → (ℕ → Double) → ℕ → ℕ → List Double
  unfolding time_stamp
  time_stamps a b i zero = []
  time_stamps a b i (suc n) = time_stamp (a i) (b i) ∷ time_stamps a b (suc i) n

  unfoldable pub voltages : (ℕ → Double) → ℕ → ℕ → List Double
  unfolding voltage
  voltages a i zero = []
  voltages a i (suc n) = voltage (a i) ∷ voltages a (suc i) n

  -- VALA and VALB, pair by pair.
  unfoldable pub all_lines : (ℕ → Double) → ℕ → ℕ → List (ℕ × ℕ)
  unfolding lines_ab
  all_lines a i zero = []
  all_lines a i (suc n) = lines_ab (a i) ∷ all_lines a (suc i) n

  unfoldable pub ts_proc : (ℕ → Double) → (ℕ → Double) → List Double
  unfolding time_stamps
  ts_proc a b = time_stamps a b 0 1024

  unfoldable pub volt_proc : (ℕ → Double) → List Double
  unfolding voltages
  volt_proc a = voltages a 0 1024

  unfoldable pub ab_proc : (ℕ → Double) → List (ℕ × ℕ)
  unfolding all_lines
  ab_proc a = all_lines a 0 1024
