-- ===== src/Spectrum/Calc/Run.antt =====
-- The waveforms of `Calc` in sigApp/src/fftcalc.cpp, and one round of its worker.
pub mod Results
use pscdrv.Common.{
  ℕ, zero, suc, List, [], ◌∷◌, length, take, drop, overwrite, Bool, true, false, not, ◌&&◌, ◌||◌,
  ltb, leb, ◌==◌, Option, none, some, if◌then◌else◌, min, ◌+◌, ◌%◌, ◌^◌,
}
use pscdrv.Floating.{Floating}
use pscdrv.Outcome.{Status, read_alarm, Severity, invalid_alarm}
use pscdrv.Spectrum.{
  Window, hann, is_hann, Fftw, Psd, Calculated, calculated, aborted, overran, no_plan, set_nfft,
  set_fsamp, set_input,
}
use pscdrv.Spectrum.Steps.{calculate}
use pscdrv.Spectrum.Calc.{Calc, poke}

-- The array of a waveform record, of NELM doubles, and NORD.
pub record Wave (Double : Type 0) : Type 0 where
  pub buffer : List Double
  pub nord : ℕ

-- What `dbGetLink` is asked for, and gives: at most as many elements.
abbrev pub Source : Type 0 → Type 0
Source Double = ℕ → Option (List Double)

module _ (fl : Floating) where
  open fl use {Double, le, literal}

  -- `set_wf_input`, at time `now` of the source; nothing comes out where elements behind NELM are read.
  unfoldable pub set_wf_input :
      Source Double → ℕ → Wave Double → Calc Double → Option (Wave Double × Calc Double)
  set_wf_input source now w c =
      let nelm = length w.buffer in
      let usewindow = ltb 0 c.samp_width in
      let last = (c.samp_start + c.samp_width) % 2 ^ 32 in
      let asked = if usewindow && ltb last nelm then last else nelm in
      let filled : Wave Double = elim (source asked) [
        | none ↦ w
        | some xs ↦ record { buffer = overwrite xs w.buffer; nord = length xs }
      ] in
      let nord = if usewindow && ltb c.samp_width filled.nord then c.samp_width else filled.nord in
      let start = if usewindow then c.samp_start else 0 in
      if ltb nelm (start + nord)
      then none
      else some (
        record { buffer = filled.buffer; nord = nord },
        poke fl (record c { timein = now; valin = take nord (drop start filled.buffer) }),
      )

  -- `get_wf_output`, `get_wf_outputint`, `get_wf_fscale` and `get_wf_window`, which differ in the array
  -- that they show: the alarm, and the record. NELM is not 0.
  unfoldable pub get_wf :
      (Calc Double → List Double)
      → Calc Double
      → Wave Double
      → Option (Status × Severity) × Wave Double
  get_wf field c w =
      let n = min (length w.buffer) (length (field c)) in
      if not c.valid
      then (some (read_alarm, invalid_alarm), w)
      else if n == 0
      then (none, record { buffer = overwrite (literal "0.0" ∷ []) w.buffer; nord = 1 })
      else (none, record { buffer = overwrite (take n (field c)) w.buffer; nord = n })

  abbrev pub or_zero : List Double → List Double
  or_zero [] = literal "0.0" ∷ []
  or_zero (x ∷ xs) = x ∷ xs

  abbrev pub is_empty : List Double → Bool
  is_empty [] = true
  is_empty (x ∷ xs) = false

  module _ (lib : Fftw Double) where
    abbrev pub same_window : Calc Double → Bool
    same_window c =
        is_hann c.calc.windowtype && is_hann c.windowtype
        || not (is_hann c.calc.windowtype) && not (is_hann c.windowtype)

    -- The calculation with the type of window that is set.
    abbrev pub retyped : Calc Double → Psd Double
    retyped c =
        let p = c.calc in
        if same_window c then p else record p { windowtype = c.windowtype; replan = true }

    -- The first part of a round, where the parameters are complete: the calculation, and whether its
    -- scale changes.
    unfoldable pub prepare : Calc Double → Psd Double × Bool
    unfolding set_nfft set_fsamp set_input
    prepare c =
        let (p2, rate) = set_fsamp fl c.fsamp (retyped c) in
        let (p3, size) = set_nfft fl c.nfft p2 in
        let (p4, array) = set_input fl c.valin c.mult p3 in
        (p4, not (same_window c) || rate || size || array)

    -- The last part: the results are shown.
    unfoldable pub finish : Bool → Psd Double → Calc Double → Calc Double
    finish scalchange p c =
        let shown : Calc Double = record c {
          calc = p;
          totalpowertime = p.totalpowertime;
          totalpowerfreq = p.totalpowerfreq;
          valout = or_zero p.output;
          valoutint = or_zero p.outint;
          valid = not (is_empty p.output) && not (is_empty p.outint);
          timeout = c.timein;
          value_scans = c.value_scans + 1;
        } in
        let scaled : Calc Double = record shown {
          scaleout = or_zero p.fscale;
          window = p.window;
          valid = shown.valid && not (is_empty p.fscale);
          scale_scans = c.scale_scans + 1;
        } in
        if scalchange then scaled else shown

    -- One round of `Calc::run`, which no other call comes between; nothing comes out of it where the
    -- calculation fails an assertion, reads out of bounds or throws.
    unfoldable pub run_once : Calc Double → Option (Calc Double)
    unfolding prepare finish calculate
    run_once c =
        let (p, scalchange) = prepare c in
        if le c.fsamp (literal "0.0") || c.nfft == 0
        then some (record c { valid = false; value_scans = c.value_scans + 1 })
        else (elim (calculate fl lib p) [
          | calculated q ↦ some (finish scalchange q c)
          | aborted ↦ none
          | overran ↦ none
          | no_plan ↦ none
        ])
