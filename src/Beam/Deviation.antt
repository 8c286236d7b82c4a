-- ===== src/Beam/Deviation.antt =====
-- Root mean square and standard deviation: pscApp/src/saRmsCal.c and saStdCal.c. A function is `none`
-- where the code reads beyond an array.
use pscdrv.Common.{
  ℕ, zero, suc, List, [], ◌∷◌, length, Option, none, some, ◌+◌, ◌-◌, ◌≤◌, ◌≡◌, refl, arith, ap, ◌<◌,
}
use pscdrv.Floating.{Floating}
use pscdrv.Beam.Positions.{get_elem?, ◌>>=◌}

module _ (fl : Floating) where
  open fl use {Double, add, mul, div, sub_double, sqrt, of_int}

  -- The loop of `RootMeanSquare`, with the rounds left. Neither SIGLIB_ARRAY_OR_PTR nor
  -- SIGLIB_ARRAY_ACCESS is defined, so that they are equal to the preprocessor and the array is read at
  -- `pSrc[i]`, where `pSrc` is the second element already.
  unfoldable pub rms_from : List Double → ℕ → ℕ → Double → Option Double
  rms_from values zero i sum = some sum
  rms_from values (suc rounds) i sum =
      get_elem? values (i + 1) >>= λ x. rms_from values rounds (i + 1) (add sum (mul x x))

  unfoldable pub root_mean_square : List Double → ℕ → Option Double
  root_mean_square values sample_length = do
    x ← get_elem? values 0
    sum ← rms_from values (sample_length - 1) 1 (mul x x)
    some (sqrt (div sum (of_int sample_length)))

  -- `fbckSupRMSCalc`: the new VAL, of the array that the link leads to.
  unfoldable pub fbck_sup_rms_calc : Option (List Double) → Double → Option Double
  fbck_sup_rms_calc none val = some val
  fbck_sup_rms_calc (some []) val = some (of_int 0)
  fbck_sup_rms_calc (some (x ∷ values)) val = root_mean_square (x ∷ values) (length (x ∷ values))

  -- The two sums of `SampleSd`.
  unfoldable pub add_all : Double → List Double → Double
  add_all sum [] = sum
  add_all sum (x ∷ values) = add_all (add sum x) values

  unfoldable pub add_squares : Double → List Double → Double
  add_squares sum [] = sum
  add_squares sum (x ∷ values) = add_squares (add sum (mul x x)) values

  unfoldable pub sample_sd : Double → List Double → Double
  sample_sd x values =
      let n = length (x ∷ values) in
      let sum = add_all x values in
      let squared_sum = add_squares (mul x x) values in
      sqrt (div (sub_double squared_sum (div (mul sum sum) (of_int n))) (of_int (n - 1)))

  -- `SaStdCalSup`
  unfoldable pub sa_std_cal_sup : Option (List Double) → Double → Double
  sa_std_cal_sup none val = val
  sa_std_cal_sup (some []) val = of_int 0
  sa_std_cal_sup (some (x ∷ values)) val = sample_sd x values

  get_elem?-beyond : (values : List Double) (i : ℕ) → length values ≤ i → get_elem? values i ≡ none
  get_elem?-beyond [] i h = refl
  get_elem?-beyond (x ∷ values) zero h = absurd (omega arith)
  get_elem?-beyond (x ∷ values) (suc i) h = get_elem?-beyond values i (omega arith)

  >>=-none :
      (m : Option Double) (f : Double → Option Double)
      → ((x : Double) → f x ≡ none)
      → (m >>= f) ≡ none
  >>=-none none f h = refl
  >>=-none (some x) f h = h x

  rms_from-beyond :
      (values : List Double) (rounds i : ℕ) (sum : Double)
      → 0 < rounds
      → i + rounds ≡ length values
      → rms_from values rounds i sum ≡ none
  unfolding rms_from
  rms_from-beyond values zero i sum pos h = absurd (omega arith)
  rms_from-beyond values (suc zero) i sum pos h =
      ap (λ o. o >>= λ x. some (add sum (mul x x))) (get_elem?-beyond values (i + 1) (omega arith))
  rms_from-beyond values (suc (suc rounds)) i sum pos h =
      >>=-none (get_elem? values (i + 1)) _ (λ x.
        rms_from-beyond values (suc rounds) (i + 1) (add sum (mul x x)) (omega arith) (omega arith))

  -- The root mean square of any array of two elements or more reads beyond its end.
  pub fbck_sup_rms_calc-none :
      (x y val : Double) (values : List Double)
      → fbck_sup_rms_calc (some (x ∷ y ∷ values)) val ≡ none
  unfolding fbck_sup_rms_calc root_mean_square
  fbck_sup_rms_calc-none x y val values =
      let rounds : length (x ∷ y ∷ values) - 1 ≡ suc (length values) = omega arith in
      rw
        (
          rounds,
          rms_from-beyond (x ∷ y ∷ values) (suc (length values)) 1 (mul x x) (omega arith)
              (omega arith),
        )
        refl
