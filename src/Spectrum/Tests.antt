-- ===== src/Spectrum/Tests.antt =====
-- The theorem on power spectra at a concrete input; whole numbers stand for floating point.
use pscdrv.Common.{ℕ, true, List, [], ◌∷◌, ◌≡◌, refl}
use pscdrv.Floating.{Floating}
use pscdrv.Floating.Whole.{whole_numbers}
use pscdrv.Spectrum.{none, hann, Fftw, Psd, calculated, new_psd, set_nfft, set_input, set_window}
use pscdrv.Spectrum.Steps.{calculate}
use pscdrv.Spectrum.Planned.{IsPlanned}
use pscdrv.Spectrum.Reached.{Reach, begun, set_size, given, windowed_by, Reach-calculate}

abbrev whole : Floating
whole = whole_numbers 1

-- A transform that repeats its input, and a planning that leaves it alone.
abbrev repeated : List ℕ → List (ℕ × ℕ)
repeated [] = []
repeated (x ∷ xs) = (x, 0) ∷ repeated xs

abbrev library : Fftw ℕ
library = record { sin = λ x. x; makes_plan = λ xs. true; planning = λ xs. xs; dft = repeated }

-- Two bins of two samples, with a Hann window.
abbrev prepared : Psd ℕ
prepared =
    (set_input whole (4 ∷ 2 ∷ 6 ∷ 8 ∷ []) 1
      (set_nfft whole 2 (set_window whole hann (new_psd whole none))).0).0

prepared-Reach : Reach whole library prepared
prepared-Reach = given (4 ∷ 2 ∷ 6 ∷ 8 ∷ []) 1 (set_size 2 (windowed_by hann (begun none)))

Reach-calculate_example :
    (q : Psd ℕ) × (calculate whole library prepared ≡ calculated q) × IsPlanned q
Reach-calculate_example = Reach-calculate whole library prepared (λ xs. (refl, refl)) prepared-Reach
