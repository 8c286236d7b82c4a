-- ===== src/Spectrum/Calc.antt =====
-- `Calc` of sigApp/src/fftcalc.cpp, and the records that set its fields and show them.
pub mod Run
mod Records
use pscdrv.Common.{
  ℕ, List, [], ◌∷◌, length, take, drop, overwrite, Bool, true, false, not, ◌&&◌, ltb, leb, ◌==◌,
  Option, none, some, if◌then◌else◌, min, ◌+◌, ◌-◌, ◌%◌, ◌^◌,
}
use pscdrv.Floating.{Floating}
use pscdrv.Outcome.{Status, write_alarm, read_alarm, Severity, invalid_alarm}
use pscdrv.Spectrum.{Window, hann, Psd}

-- The fields; the name, the thread and the timers are left out. Times are numbers. `pokes` counts the
-- signals of `wake`, `value_scans` and `scale_scans` the requests of the two scans. `calc` is the
-- calculation that the worker owns.
pub record Calc (Double : Type 0) : Type 0 where
  pub windowtype : Window
  pub fsamp : Double
  pub mult : Double
  pub nfft : ℕ
  pub samp_start : ℕ
  pub samp_width : ℕ
  pub timein : ℕ
  pub timeout : ℕ
  pub valin : List Double
  pub valout : List Double
  pub valoutint : List Double
  pub scaleout : List Double
  pub window : List Double
  pub totalpowertime : Double
  pub totalpowerfreq : Double
  pub valid : Bool
  pub pokes : ℕ
  pub value_scans : ℕ
  pub scale_scans : ℕ
  pub calc : Psd Double

-- `Calc::Calc`; the window's type has no value yet.
unfoldable pub new_calc : {Double : Type 0} → Double → Double → Window → Psd Double → Calc Double
new_calc zero_point one_point junk psd = record {
  windowtype = junk;
  fsamp = zero_point;
  mult = one_point;
  nfft = 0;
  samp_start = 0;
  samp_width = 0;
  timein = 0;
  timeout = 0;
  valin = [];
  valout = [];
  valoutint = [];
  scaleout = [];
  window = [];
  totalpowertime = zero_point;
  totalpowerfreq = zero_point;
  valid = false;
  pokes = 0;
  value_scans = 0;
  scale_scans = 0;
  calc = psd;
}

module _ (fl : Floating) where
  open fl use {Double, eq, literal}

  abbrev pub poke : Calc Double → Calc Double
  poke c = record c { pokes = c.pokes + 1 }

  -- VAL is an epicsInt32 as its bit pattern; `nfft` is a size_t, in which it stands with its sign.
  unfoldable pub set_nfft : ℕ → Calc Double → Calc Double
  set_nfft val c =
      let n = if ltb val (2 ^ 31) then val else val + (2 ^ 64 - 2 ^ 32) in
      if c.nfft == val then c else poke (record c { nfft = n })

  -- The argument is VAL in engineering units.
  unfoldable pub set_fsamp : Double → Calc Double → Calc Double
  set_fsamp fsamp c = if eq c.fsamp fsamp then c else poke (record c { fsamp = fsamp })

  unfoldable pub set_scale : Double → Calc Double → Calc Double
  set_scale mult c = if eq c.mult mult then c else poke (record c { mult = mult })

  unfoldable pub set_start : ℕ → Calc Double → Calc Double
  set_start val c = record c { samp_start = val }

  unfoldable pub set_width : ℕ → Calc Double → Calc Double
  set_width val c = record c { samp_width = val }

  -- The alarm that it raises, and the state.
  unfoldable pub set_windtype : ℕ → Calc Double → Option (Status × Severity) × Calc Double
  set_windtype rval c =
      if rval == 0
      then (none, record c { windowtype = Window.none })
      else if rval == 1
      then (none, record c { windowtype = hann })
      else (some (write_alarm, invalid_alarm), c)
