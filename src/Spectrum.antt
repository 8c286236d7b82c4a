-- ===== src/Spectrum.antt =====
-- `PSDCalc` of sigApp/src/fftwrap.cpp: the power spectrum of an array, cut into bins that are averaged.
pub mod Steps
pub mod Planned
pub mod Reached
pub mod Calc
mod Tests
use pscdrv.Common.{
  ℕ, zero, suc, List, [], ◌∷◌, length, take, drop, replicate, map, Bool, true, false, not, ◌&&◌,
  ◌||◌, ltb, leb, ◌==◌, if◌then◌else◌, min, ◌+◌, ◌-◌, ◌*◌, ◌/◌, ◌%◌, ◌^◌,
}
use pscdrv.Floating.{Floating}

-- `PSDCalc::Window`
pub data Window : Type 0 where
  none hann : Window

abbrev pub is_hann : Window → Bool
is_hann none = false
is_hann hann = true

-- The FFTW library and the sine. `makes_plan` is whether a plan is made for a part of the input,
-- `planning` what the making leaves in that part, and `dft` the transform of a part: pairs of a real and
-- an imaginary number, half as many as the part has places, and one more.
pub record Fftw (Double : Type 0) : Type 0 where
  pub sin : Double → Double
  pub makes_plan : List Double → Bool
  pub planning : List Double → List Double
  pub dft : List Double → List (Double × Double)

-- The fields. `plans` counts the plans and `middle` the bins of `middle`.
pub record Psd (Double : Type 0) : Type 0 where
  pub windowtype : Window
  pub window : List Double
  pub outint : List Double
  pub input : List Double
  pub output : List Double
  pub plans : ℕ
  pub middle : ℕ
  pub fscale : List Double
  pub totalpowertime : Double
  pub totalpowerfreq : Double
  pub nfft : ℕ
  pub fsamp : Double
  pub mult : Double
  pub replan : Bool
  pub newval : Bool

-- `calculate` returns, an assertion fails, memory is read beyond the window, or a plan is null, on which
-- `Plan::reset` throws a bad_alloc, which ends the worker's thread.
pub data Calculated (Double : Type 0) : Type 0 where
  calculated : Psd Double → Calculated Double
  aborted overran no_plan : Calculated Double

-- The number of time samples for one transform, of frequencies, and of bins.
abbrev pub ntime : {Double : Type 0} → Psd Double → ℕ
ntime p = min p.nfft (length p.input)

abbrev pub nfreq : {Double : Type 0} → Psd Double → ℕ
nfreq p = ntime p / 2 + 1

abbrev pub nbins : {Double : Type 0} → Psd Double → ℕ
nbins p = length p.input / ntime p

module _ (fl : Floating) where
  open fl use {Double, add, sub_double, mul, div, eq, of_int, of_long, literal, sqrt}

  -- `PSDCalc::PSDCalc`; the window's type has no value yet.
  unfoldable pub new_psd : Window → Psd Double
  new_psd junk = record {
    windowtype = junk;
    window = [];
    outint = [];
    input = [];
    output = [];
    plans = 0;
    middle = 0;
    fscale = [];
    totalpowertime = literal "0.0";
    totalpowerfreq = literal "0.0";
    nfft = 0;
    fsamp = literal "0.0";
    mult = literal "0.0";
    replan = true;
    newval = true;
  }

  unfoldable pub set_nfft : ℕ → Psd Double → Psd Double × Bool
  set_nfft n p = if n == p.nfft then (p, false) else (record p { nfft = n; replan = true }, true)

  unfoldable pub set_fsamp : Double → Psd Double → Psd Double × Bool
  set_fsamp f p = if eq p.fsamp f then (p, false) else (record p { fsamp = f; replan = true }, true)

  unfoldable pub set_input : List Double → Double → Psd Double → Psd Double × Bool
  set_input xs scale p =
      let m = if eq scale (of_int 0) then literal "1.0" else scale in
      if length xs == length p.input && eq m p.mult
      then (record p { input = xs; newval = true }, false)
      else (record p { input = xs; mult = m; replan = true; newval = true }, true)

  -- What `Calc::run` of sigApp/src/fftcalc.cpp does to the type of the window.
  unfoldable pub set_window : Window → Psd Double → Psd Double
  set_window w p = record p { windowtype = w; replan = true }
