-- ===== src/Spectrum/Steps.antt =====
-- `PSDCalc::calculate`.
use pscdrv.Common.{
  ℕ, zero, suc, List, [], ◌∷◌, ◌++◌, length, take, drop, replicate, map, Bool, true, false, not,
  ◌&&◌, ◌||◌, ltb, leb, ◌==◌, if◌then◌else◌, ◌+◌, ◌-◌, ◌*◌, ◌%◌, ◌^◌,
}
use pscdrv.Floating.{Floating}
use pscdrv.Spectrum.{
  is_hann, Fftw, Psd, Calculated, calculated, aborted, overran, no_plan, ntime, nfreq, nbins,
}

module _ (fl : Floating) (lib : Fftw fl.Double) where
  open fl use {Double, add, sub_double, mul, div, of_int, of_long, literal, sqrt}

  -- The Hann window from place `i` on.
  unfoldable pub hann_window : Double → ℕ → ℕ → List Double
  hann_window fact i zero = []
  hann_window fact i (suc n) =
      let temp = lib.sin (mul fact (of_long i)) in mul temp temp ∷ hann_window fact (suc i) n

  unfoldable pub make_window : Psd Double → Psd Double
  unfolding hann_window
  make_window p =
      let n = length p.input in
      let fact = div (literal "3.141592653589793") (of_long (ntime p - 1)) in
      let w = if is_hann p.windowtype then hann_window fact 0 n else replicate n (literal "1.0") in
      if p.replan then record p { window = w } else p

  -- A sum from left to right.
  abbrev pub sum : Double → List Double → Double
  sum s [] = s
  sum s (x ∷ xs) = sum (add s x) xs

  -- The second loop on new input: each value and its window, where the window has as many.
  abbrev pub windowed : List Double → List Double → List Double
  windowed (t ∷ ts) (w ∷ ws) = mul t w ∷ windowed ts ws
  windowed _ _ = []

  unfoldable pub take_input : Psd Double → Psd Double
  take_input p =
      let n = of_long (length p.input) in
      let mean = div (sum (literal "0.0") p.input) n in
      let temps = map (λ x. div (sub_double x mean) p.mult) p.input in
      if p.newval
      then record p {
        input = windowed temps p.window;
        totalpowertime = div (sum (literal "0.0") (map (λ t. mul t t) temps)) n;
        newval = false;
      }
      else p

  -- The parts of the input that have a plan, as planning leaves them, and the rest.
  unfoldable pub planned_input : ℕ → ℕ → List Double → List Double
  planned_input size zero xs = xs
  planned_input size (suc bins) xs =
      lib.planning (take size xs) ++ planned_input size bins (drop size xs)

  -- Whether each of these parts gets a plan.
  abbrev pub all_planned : ℕ → ℕ → List Double → Bool
  all_planned size zero xs = true
  all_planned size (suc bins) xs =
      let rest = all_planned size bins (drop size xs) in lib.makes_plan (take size xs) && rest

  unfoldable pub scale_from : Double → ℕ → ℕ → List Double
  scale_from step i zero = []
  scale_from step i (suc n) = mul (of_long (i + 1)) step ∷ scale_from step (suc i) n

  unfoldable pub make_plans : Psd Double → Psd Double
  unfolding planned_input scale_from
  make_plans p =
      let zeros = replicate (nfreq p - 1) (literal "0.0") in
      if p.replan
      then record p {
        plans = nbins p;
        middle = nbins p;
        output = zeros;
        outint = zeros;
        fscale = scale_from (div p.fsamp (of_long (ntime p))) 0 (nfreq p - 1);
        input = planned_input (ntime p) (nbins p) p.input;
        replan = false;
      }
      else p

  -- The powers of one bin without the first, added to the output.
  abbrev pub add_powers : List Double → List (Double × Double) → List Double
  add_powers [] mid = []
  add_powers (o ∷ out) [] = o ∷ out
  add_powers (o ∷ out) ((re, im) ∷ mid) = add o (add (mul re re) (mul im im)) ∷ add_powers out mid

  unfoldable pub add_bins : ℕ → ℕ → List Double → List Double → List Double
  add_bins size zero xs out = out
  add_bins size (suc bins) xs out =
      add_bins size bins (drop size xs) (add_powers out (drop 1 (lib.dft (take size xs))))

  -- The last loop: OUT, its integral and the total so far.
  unfoldable pub integrate :
      Double → Double → Double → List Double → List Double × List Double × Double
  integrate factor fsamp total [] = ([], [], total)
  integrate factor fsamp total (o ∷ out) =
      let temp = mul o factor in
      let total' = add total temp in
      let (outs, ints, last) = integrate factor fsamp total' out in
      (temp ∷ outs, mul (sqrt (div total' fsamp)) (literal "1e3") ∷ ints, last)

  unfoldable pub execute : Psd Double → Psd Double
  unfolding add_bins integrate
  execute p =
      let bins = nbins p in
      let sums = add_bins (ntime p) bins p.input (replicate (length p.output) (literal "0.0")) in
      let factor = div (literal "2.0") (of_long (ntime p * ntime p * bins % 2 ^ 64)) in
      let (out, ints, total) = integrate factor p.fsamp (literal "0.0") sums in
      record p { output = out; outint = ints; totalpowerfreq = total }

  -- The assertions at the beginning, and those behind the plans.
  abbrev pub holds_first : Psd Double → Bool
  holds_first p =
      ltb 0 (ntime p)
      && ltb 0 (nfreq p)
      && ltb 0 (nbins p)
      && leb (nbins p * ntime p) (length p.input)

  abbrev pub holds_planned : Psd Double → Bool
  holds_planned p = p.plans == nbins p && p.middle == nbins p && length p.output == nfreq p - 1

  unfoldable pub calculate : Psd Double → Calculated Double
  unfolding make_window take_input make_plans execute
  calculate p =
      let w = make_window p in
      let t = take_input w in
      let q = make_plans t in
      if length p.input == 0 || p.nfft == 0
      then calculated p
      else if not (holds_first p)
      then aborted
      else if p.newval && ltb (length w.window) (length p.input)
      then overran
      else if t.replan && not (all_planned (ntime t) (nbins t) t.input)
      then no_plan
      else if holds_planned q
      then calculated (execute q)
      else aborted
