-- ===== src/Arrays/Tests.antt =====
-- The theorems on the array subroutines at concrete arrays; whole numbers stand for both floating
-- types, and the transform of the library only pairs each number with 0.
use mathlib.Core.List.{zip}
use pscdrv.Common.{
  ℕ, List, [], ◌∷◌, length, replicate, true, false, none, some, ◌≡◌, refl, arith, get_or,
  if◌then◌else◌, ◌==◌,
}
use pscdrv.Floating.{Floating}
use pscdrv.Floating.Whole.{whole_numbers}
use pscdrv.Arrays.Window.{Averaged, moving_average}
use pscdrv.Arrays.Window.Mean.{moving_average-total}
use pscdrv.Arrays.Adc.{volts, adc_wf_proc}
use pscdrv.Arrays.Adc.Samples.{adc_wf_proc-source}
use pscdrv.Arrays.Compare.{array_compare, Tolerance}
use pscdrv.Arrays.Compare.Verdicts.{IsVerdict, array_compare-IsVerdict}
use pscdrv.Arrays.Fft.{Library, Fresh, Sub}

abbrev whole : Floating
whole = whole_numbers 0

abbrev zeros : ℕ → ℕ
zeros i = 0

-- The mean of 3, 5 and 7 at the second place.
moving_average-total_example :
    (out : Averaged ℕ) × (moving_average whole zeros (3 ∷ 5 ∷ 7 ∷ 9 ∷ []) 3 (replicate 4 0)
      ≡ some out)
    × (get_or out.vala 1 0 ≡ 5)
    × (out.valb ≡ 3)
moving_average-total_example =
    moving_average-total whole zeros (3 ∷ 5 ∷ 7 ∷ 9 ∷ []) (replicate 4 0) 3 1 0 (omega arith)
      (omega arith) (omega arith) refl (omega arith)

-- Four samples and two places more.
adc_wf_proc-source_example :
    (out : List ℕ) × (adc_wf_proc whole zeros (1 ∷ 2 ∷ 3 ∷ 4 ∷ []) 4 6 (replicate 6 0) ≡ some out)
    × (get_or out 5 0 ≡ volts whole 3)
adc_wf_proc-source_example =
    adc_wf_proc-source whole zeros (1 ∷ 2 ∷ 3 ∷ 4 ∷ []) 4 6 2 5 (replicate 6 0) 0 refl (omega arith)
      (omega arith) (omega arith) (omega arith)

array_compare-IsVerdict_example :
    (r : Tolerance) × (array_compare whole 2 (3 ∷ 3 ∷ []) (1 ∷ 5 ∷ []) ≡ some r)
    × IsVerdict whole 2 r ((3, 1) ∷ (3, 5) ∷ [])
unfolding zip
array_compare-IsVerdict_example = array_compare-IsVerdict whole 2 (3 ∷ 3 ∷ []) (1 ∷ 5 ∷ []) refl

-- The imaginary parts are 0.
abbrev with_zeros : List ℕ → List ℕ
with_zeros [] = []
with_zeros (x ∷ xs) = x ∷ 0 ∷ with_zeros xs

abbrev pairs : Library ℕ
pairs = record {
  Wavetable = ℕ;
  alloc = λ n. n;
  transform = λ w xs. if length xs == w then some xs else none;
  unpack = with_zeros;
}

abbrev fresh : Fresh whole pairs
fresh = record { allocated = true; done = false; junk = 7 }

-- The record has been processed once, and the worker has made its round.
abbrev transformed : Sub whole pairs
transformed = record {
  pact = true;
  dpvt = some (record {
    done = false;
    signalled = false;
    requested = true;
    count = 2;
    samples = 8 ∷ 6 ∷ [];
    cmplx_coeffs = 8 ∷ 0 ∷ 6 ∷ 0 ∷ [];
    real = 2;
  });
  vala = 0 ∷ 0 ∷ [];
  nova = 0;
  wtmap = (2, 2) ∷ [];
}
