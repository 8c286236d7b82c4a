-- ===== src/Spectrum/Calc/Run/Results.antt =====
-- Every round of the worker ends.
use pscdrv.Common.{Bool, true, false, ◌||◌, ◌==◌, some, ◌+◌, ◌≡◌, refl, inl, inr, Bool-cases}
use pscdrv.Floating.{Floating}
use pscdrv.Spectrum.{Fftw, Psd, set_nfft, set_fsamp}
use pscdrv.Spectrum.Planned.{IsInPlace, IsPlanned, calculate-IsPlanned}
use pscdrv.Spectrum.Reached.{set_nfft-IsPlanned, set_fsamp-IsPlanned, set_input-IsPlanned}
use pscdrv.Spectrum.Calc.{Calc}
use pscdrv.Spectrum.Calc.Run.{same_window, retyped, prepare, finish, run_once}

module _ (fl : Floating) (lib : Fftw fl.Double) where
  open fl use {Double, le, literal}

  -- A new type of window asks for a new plan.
  retyped-IsPlanned : (c : Calc Double) → IsPlanned c.calc → IsPlanned (retyped fl lib c)
  retyped-IsPlanned c v = elim (Bool-cases (same_window fl lib c)) [
    | inl same ↦ rw same v
    | inr new ↦ rw new (inl refl)
  ]

  prepare-IsPlanned : (c : Calc Double) → IsPlanned c.calc → IsPlanned (prepare fl lib c).0
  unfolding prepare
  prepare-IsPlanned c v =
      let rated = (set_fsamp fl c.fsamp (retyped fl lib c)).0 in
      let sized = (set_nfft fl c.nfft rated).0 in
      set_input-IsPlanned fl lib c.valin c.mult sized (
        set_nfft-IsPlanned fl lib c.nfft rated
          (set_fsamp-IsPlanned fl lib c.fsamp (retyped fl lib c) (retyped-IsPlanned c v)))

  finish-IsPlanned :
      (scalchange : Bool) (p : Psd Double) (c : Calc Double)
      → IsPlanned p
      → IsPlanned (finish fl lib scalchange p c).calc
  unfolding finish
  finish-IsPlanned true p c v = v
  finish-IsPlanned false p c v = v

  -- A round of the worker, where a new plan is due or the plans and the window fit the calculation's
  -- input, ends without a failed assertion and without a read out of bounds, and that is so again.
  run_once-IsPlanned :
      (c : Calc Double)
      → IsInPlace lib
      → IsPlanned c.calc
      → (c' : Calc Double) × (run_once fl lib c ≡ some c') × IsPlanned c'.calc
  unfolding run_once
  run_once-IsPlanned c laws v =
      let (p, scalchange) = prepare fl lib c in
      let (q, e, w) = calculate-IsPlanned fl lib p laws (prepare-IsPlanned c v) in
      elim (Bool-cases (le c.fsamp (literal "0.0") || c.nfft == 0)) [
        | inl idle ↦ (record c { valid = false; value_scans = c.value_scans + 1 }, rw idle refl, v)
        | inr complete ↦
            (finish fl lib scalchange q c, rw (complete, e) refl, finish-IsPlanned scalchange q c w)
      ]
