-- ===== src/Spectrum/Planned.antt =====
-- The plans fit the input in every state that `PSDCalc` reaches.
use native.Mathlib.Nat.{le-div_iff_mul-le, div-mul-le_self}
use pscdrv.Common.{
  ℕ, zero, suc, List, [], ◌∷◌, length, take, drop, replicate, map, Bool, not, true, false, ◌&&◌,
  ◌||◌, ltb, ◌==◌, min, ◌+◌, ◌-◌, ◌*◌, ◌/◌, ◌<◌, ◌≤◌, ◌≡◌, refl, ap, ◌∙◌, sym, ◌⊎◌, inl, inr, arith,
  Bool-cases, length-append, length-take, length-drop, length-replicate, length-map,
}
use pscdrv.Floating.{Floating}
use pscdrv.Spectrum.{is_hann, Fftw, Psd, calculated, ntime, nfreq, nbins}
use pscdrv.Spectrum.Steps.{
  hann_window, make_window, windowed, take_input, planned_input, all_planned, make_plans,
  add_powers, add_bins, integrate, execute, holds_first, holds_planned, calculate,
}

-- A plan is always made, and its making leaves as many numbers in place as there were.
abbrev pub IsInPlace : {Double : Type 0} → Fftw Double → Type 0
IsInPlace lib = (xs : List _) → (length (lib.planning xs) ≡ length xs) × (lib.makes_plan xs ≡ true)

bins_fit : (n size : ℕ) → 0 < size → size ≤ n → (0 < n / size) × (n / size * size ≤ n)
bins_fit n size h k =
    let one : 1 * size ≤ n = omega arith in
    ((le-div_iff_mul-le {k = size} {x = 1} {y = n} h).1 one, div-mul-le_self n size)

-- The plans, the bins and the output fit an input of `n` elements.
abbrev pub IsShaped : {Double : Type 0} → ℕ → ℕ → Psd Double → Type 0
IsShaped nfft n p =
    (p.plans ≡ n / min nfft n)
    × (p.middle ≡ n / min nfft n)
    × (length p.output ≡ min nfft n / 2 + 1 - 1)

-- A new plan is due, or the plans and the window fit the input.
abbrev pub IsPlanned : {Double : Type 0} → Psd Double → Type 0
IsPlanned p =
    (p.replan ≡ true) ⊎ (IsShaped p.nfft (length p.input) p × (length p.window ≡ length p.input))

holds_planned-IsShaped :
    (fl : Floating) (lib : Fftw fl.Double) (nfft n : ℕ) (q : Psd fl.Double)
    → length q.input ≡ n
    → q.nfft ≡ nfft
    → IsShaped nfft n q
    → holds_planned fl lib q ≡ true
holds_planned-IsShaped fl lib nfft n q l e (plans, middle, output) =
    rw (plans, middle, output, l, e) (ground arith)

and_false : (b : Bool) → (b && not true) ≡ false
and_false true = refl
and_false false = refl

module _ (fl : Floating) (lib : Fftw fl.Double) where
  open fl use {Double}

  length-hann_window : (fact : Double) (i n : ℕ) → length (hann_window fl lib fact i n) ≡ n
  unfolding hann_window
  length-hann_window fact i zero = refl
  length-hann_window fact i (suc n) = ap suc (length-hann_window fact (suc i) n)

  length-windowed :
      (ts ws : List Double) → length ws ≡ length ts → length (windowed fl lib ts ws) ≡ length ts
  length-windowed [] ws h = refl
  length-windowed (t ∷ ts) [] h = absurd (omega arith)
  length-windowed (t ∷ ts) (w ∷ ws) h = ap suc (length-windowed ts ws (omega arith))

  length-planned_input :
      (size bins : ℕ) (xs : List Double)
      → IsInPlace lib
      → length (planned_input fl lib size bins xs) ≡ length xs
  unfolding planned_input
  length-planned_input size zero xs laws = refl
  length-planned_input size (suc bins) xs laws = omega (
    arith,
    length-append (lib.planning (take size xs)) (planned_input fl lib size bins (drop size xs)),
    (laws (take size xs)).0,
    length-planned_input size bins (drop size xs) laws,
    length-take size xs,
    length-drop size xs,
  )

  all_planned-true :
      (size bins : ℕ) (xs : List Double) → IsInPlace lib → all_planned fl lib size bins xs ≡ true
  all_planned-true size zero xs laws = refl
  all_planned-true size (suc bins) xs laws =
      rw ((laws (take size xs)).1) (all_planned-true size bins (drop size xs) laws)

  length-add_powers :
      (out : List Double) (mid : List (Double × Double))
      → length (add_powers fl lib out mid) ≡ length out
  length-add_powers [] mid = refl
  length-add_powers (o ∷ out) [] = refl
  length-add_powers (o ∷ out) (m ∷ mid) = ap suc (length-add_powers out mid)

  length-add_bins :
      (size bins : ℕ) (xs out : List Double)
      → length (add_bins fl lib size bins xs out) ≡ length out
  unfolding add_bins
  length-add_bins size zero xs out = refl
  length-add_bins size (suc bins) xs out =
      length-add_bins size bins (drop size xs) _ ∙ length-add_powers out _

  length-integrate :
      (out : List Double) (factor fsamp total : Double)
      → length (integrate fl lib factor fsamp total out).0 ≡ length out
  unfolding integrate
  length-integrate [] factor fsamp total = refl
  length-integrate (o ∷ out) factor fsamp total =
      ap suc (length-integrate out factor fsamp (fl.add total (fl.mul o factor)))

  length-new_window :
      (p : Psd Double) → p.replan ≡ true → length (make_window fl lib p).window ≡ length p.input
  unfolding make_window
  length-new_window p r = elim (Bool-cases (is_hann p.windowtype)) [
    | inl h ↦ rw (r, h) (length-hann_window _ 0 (length p.input))
    | inr h ↦ rw (r, h) (length-replicate (length p.input) (fl.literal "1.0"))
  ]

  -- The state in the middle of `calculate`: the input still has `n` elements, and a new plan is due or
  -- the plans fit.
  abbrev IsMiddle : ℕ → ℕ → Psd Double → Type 0
  IsMiddle nfft n p =
      (length p.window ≡ n)
      × (length p.input ≡ n)
      × (p.nfft ≡ nfft)
      × ((p.replan ≡ true) ⊎ IsShaped nfft n p)

  make_window-IsMiddle :
      (p : Psd Double) → IsPlanned p → IsMiddle p.nfft (length p.input) (make_window fl lib p)
  unfolding make_window
  make_window-IsMiddle p (inl r) = (length-new_window p r, rw r refl, rw r refl, inl (rw r refl))
  make_window-IsMiddle p (inr (z, w)) = elim (Bool-cases p.replan) [
    | inl r ↦ (length-new_window p r, rw r refl, rw r refl, inl (rw r refl))
    | inr r ↦ rw (make_window, r) (w, refl, refl, inr z)
  ]

  take_input-IsMiddle :
      (nfft n : ℕ) (p : Psd Double) → IsMiddle nfft n p → IsMiddle nfft n (take_input fl lib p)
  unfolding take_input
  take_input-IsMiddle nfft n p (w, l, e, z) = elim (Bool-cases p.newval) [
    | inr old ↦ rw (take_input, old) (w, l, e, z)
    | inl new ↦
        let temps = map (λ x. fl.div (fl.sub_double x _) p.mult) p.input in
        rw (take_input, new)
          (
            w,
            length-windowed temps p.window (w ∙ sym l ∙ sym (length-map _ p.input))
                ∙ length-map _ p.input
                ∙ l,
            e,
            z,
          )
  ]

  new_plans-IsShaped :
      (nfft n : ℕ) (p : Psd Double)
      → IsInPlace lib
      → p.replan ≡ true
      → IsMiddle nfft n p
      → let q = make_plans fl lib p in IsMiddle nfft n q × IsShaped nfft n q
  unfolding make_plans
  new_plans-IsShaped nfft n p laws r (w, l, e, z) =
      let count : length p.input / min p.nfft (length p.input) ≡ n / min nfft n = rw (l, e) refl in
      let size : length (replicate (nfreq p - 1) (fl.literal "0.0")) ≡ min nfft n / 2 + 1 - 1 =
        length-replicate (nfreq p - 1) (fl.literal "0.0") ∙ rw (l, e) refl in
      let kept = length-planned_input (ntime p) (nbins p) p.input laws ∙ l in
      rw (make_plans, r) ((w, kept, e, inr (count, count, size)), (count, count, size))

  make_plans-IsShaped :
      (nfft n : ℕ) (p : Psd Double)
      → IsInPlace lib
      → IsMiddle nfft n p
      → let q = make_plans fl lib p in IsMiddle nfft n q × IsShaped nfft n q
  unfolding make_plans
  make_plans-IsShaped nfft n p laws (w, l, e, inl r) =
      new_plans-IsShaped nfft n p laws r (w, l, e, inl r)
  make_plans-IsShaped nfft n p laws (w, l, e, inr z) = elim (Bool-cases p.replan) [
    | inl r ↦ new_plans-IsShaped nfft n p laws r (w, l, e, inl r)
    | inr r ↦ rw (make_plans, r) ((w, l, e, inr z), z)
  ]

  execute-IsPlanned :
      (nfft n : ℕ) (q : Psd Double)
      → IsMiddle nfft n q
      → IsShaped nfft n q
      → IsPlanned (execute fl lib q)
  unfolding execute
  execute-IsPlanned nfft n q (w, l, e, z) (plans, middle, output) =
      let size =
        length-integrate
          (add_bins fl lib (ntime q) (nbins q) q.input
            (replicate (length q.output) (fl.literal "0.0")))
          _ q.fsamp (fl.literal "0.0")
        ∙ length-add_bins (ntime q) (nbins q) q.input
            (replicate (length q.output) (fl.literal "0.0"))
        ∙ length-replicate (length q.output) (fl.literal "0.0") in
      let count : n / min nfft n ≡ length q.input / min q.nfft (length q.input) = rw (l, e) refl in
      let half : min nfft n / 2 + 1 - 1 ≡ nfreq q - 1 = rw (l, e) refl in
      inr ((plans ∙ count, middle ∙ count, size ∙ output ∙ half), w ∙ sym l)

  holds_first_lem : (p : Psd Double) → 0 < length p.input → 0 < p.nfft → holds_first fl lib p ≡ true
  holds_first_lem p h k =
      let (some_bin, room) = bins_fit (length p.input) (ntime p) (ground arith) (ground arith) in
      ground arith

  -- `calculate`, where a new plan is due or the plans and the window fit: no assertion fails, nothing
  -- is read beyond the window, and the plans and the window fit afterwards.
  pub calculate-IsPlanned :
      (p : Psd Double)
      → IsInPlace lib
      → IsPlanned p
      → (q : Psd Double) × (calculate fl lib p ≡ calculated q) × IsPlanned q
  unfolding calculate
  calculate-IsPlanned p laws v =
      let n = length p.input in
      let m = make_window-IsMiddle p v in
      let u = take_input fl lib (make_window fl lib p) in
      let t = make_plans fl lib (take_input fl lib (make_window fl lib p)) in
      let (mid, shaped) =
        make_plans-IsShaped p.nfft n (take_input fl lib (make_window fl lib p)) laws
          (take_input-IsMiddle p.nfft n (make_window fl lib p) m) in
      let made = all_planned-true (ntime u) (nbins u) u.input laws in
      let good = holds_planned-IsShaped fl lib p.nfft n t mid.1 mid.2 shaped in
      elim (Bool-cases (length p.input == 0 || p.nfft == 0)) [
        | inl idle ↦ (p, rw idle refl, v)
        | inr busy ↦
            let first = holds_first_lem p (ground arith) (ground arith) in
            let inside : (p.newval && ltb (length (make_window fl lib p).window) (length p.input))
                ≡ false =
              ground (arith, m.0) in
            (
              execute fl lib t,
              rw (busy, first, inside, made, and_false u.replan, good) refl,
              execute-IsPlanned p.nfft n t mid shaped,
            )
      ]
