-- ===== src/Beam/Tests.antt =====
-- The theorems on the subroutines of beam instrumentation at concrete inputs.
use pscdrv.Common.{
  ℕ, List, [], ◌∷◌, replicate, length-replicate, true, false, none, some, ◌≡◌, refl, arith,
}
use pscdrv.Floating.Whole.{whole_numbers}
use pscdrv.Beam.Alarms.{Pair, asub_alarm_calc_proc}
use pscdrv.Beam.Alarms.Levels.{asub_alarm_calc_proc-occurrences}
use pscdrv.Beam.Positions.{Statics, unit_conversion, psd_integrals}
use pscdrv.Beam.Positions.Bounds.{left_over, unit_conversion-left_over, psd_integrals_total}
use pscdrv.Beam.Deviation.{fbck_sup_rms_calc, fbck_sup_rms_calc-none}

abbrev major : Pair
major = record { linked = true; state = 1; severity = 2 }

asub_alarm_calc_proc-occurrences_example : asub_alarm_calc_proc (major ∷ major ∷ []) ≡ 2
asub_alarm_calc_proc-occurrences_example = asub_alarm_calc_proc-occurrences (major ∷ major ∷ [])

-- One alarm alone, with all others connected, is none.
one_alarm : asub_alarm_calc_proc (major ∷ []) ≡ 0
unfolding asub_alarm_calc_proc
one_alarm = refl

abbrev flat : List ℕ
flat = replicate 5000 0

psd_integrals_total_example :
    (x y : List ℕ) × (psd_integrals (whole_numbers 1) flat flat (0 ∷ 5 ∷ []) (true, 7) (false, 9000)
      ≡ some (x, y))
psd_integrals_total_example =
    psd_integrals_total (whole_numbers 1) flat flat (0 ∷ 5 ∷ []) (true, 7) (false, 9000)
      (omega (arith, length-replicate {A = ℕ} 5000 0))
      (omega (arith, length-replicate {A = ℕ} 5000 0)) (omega arith)

abbrev statics : Statics (whole_numbers 1)
statics = record { xs = 7 ∷ 8 ∷ []; ys = 9 ∷ 10 ∷ [] }

unit_conversion-left_over_example :
    (s' : Statics (whole_numbers 1)) × (unit_conversion
        (whole_numbers 1)
        0
        1
        (3 ∷ 4 ∷ [])
        (5 ∷ 6 ∷ [])
        statics
      ≡ some (
        s',
        left_over (whole_numbers 1) 1 2 (3 ∷ 4 ∷ []) (7 ∷ 8 ∷ []),
        left_over (whole_numbers 1) 1 2 (5 ∷ 6 ∷ []) (9 ∷ 10 ∷ []),
      ))
unit_conversion-left_over_example =
    unit_conversion-left_over (whole_numbers 1) 1 (3 ∷ 4 ∷ []) (5 ∷ 6 ∷ []) statics (omega arith)
      refl (omega arith) (omega arith)

fbck_sup_rms_calc-none_example :
    fbck_sup_rms_calc (whole_numbers 1) (some (3 ∷ 4 ∷ 5 ∷ [])) 0 ≡ none
fbck_sup_rms_calc-none_example = fbck_sup_rms_calc-none (whole_numbers 1) 3 4 0 (5 ∷ [])
