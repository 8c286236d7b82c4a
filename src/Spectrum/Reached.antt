-- ===== src/Spectrum/Reached.antt =====
-- The states that `PSDCalc` reaches, by calls in any order.
use pscdrv.Common.{
  ℕ, List, length, if◌then◌else◌, subst, ◌==◌, ◌&&◌, ◌≡◌, refl, ap, ◌∙◌, sym, inl, inr, arith,
  Bool-cases,
}
use pscdrv.Floating.{Floating}
use pscdrv.Spectrum.{
  Window, Fftw, Psd, calculated, new_psd, set_nfft, set_fsamp, set_input, set_window,
}
use pscdrv.Spectrum.Steps.{calculate}
use pscdrv.Spectrum.Planned.{IsInPlace, IsPlanned, calculate-IsPlanned}

module _ (fl : Floating) (lib : Fftw fl.Double) where
  open fl use {Double}

  pub data Reach : Psd Double → Type 0 where
    begun : (w : Window) → Reach (new_psd fl w)
    set_size : {p : Psd Double} (n : ℕ) → Reach p → Reach (set_nfft fl n p).0
    set_rate : {p : Psd Double} (f : Double) → Reach p → Reach (set_fsamp fl f p).0
    given :
        {p : Psd Double} (xs : List Double) (m : Double) → Reach p → Reach (set_input fl xs m p).0
    windowed_by : {p : Psd Double} (w : Window) → Reach p → Reach (set_window fl w p)
    ran : {p q : Psd Double} → Reach p → calculate fl lib p ≡ calculated q → Reach q

  pub set_nfft-IsPlanned : (n : ℕ) (p : Psd Double) → IsPlanned p → IsPlanned (set_nfft fl n p).0
  unfolding set_nfft
  set_nfft-IsPlanned n p v = elim (Bool-cases (n == p.nfft)) [
    | inl same ↦ rw same v
    | inr new ↦ rw new (inl refl)
  ]

  pub set_fsamp-IsPlanned :
      (f : Double) (p : Psd Double) → IsPlanned p → IsPlanned (set_fsamp fl f p).0
  unfolding set_fsamp
  set_fsamp-IsPlanned f p v = elim (Bool-cases (fl.eq p.fsamp f)) [
    | inl same ↦ rw same v
    | inr new ↦ rw new (inl refl)
  ]

  pub set_input-IsPlanned :
      (xs : List Double) (m : Double) (p : Psd Double)
      → IsPlanned p
      → IsPlanned (set_input fl xs m p).0
  unfolding set_input
  set_input-IsPlanned xs m p v =
      let scale = if fl.eq m (fl.of_int 0) then fl.literal "1.0" else m in
      elim (Bool-cases (length xs == length p.input && fl.eq scale p.mult)) [
        | inr new ↦ rw new (inl refl)
        | inl same ↦
            let l : length xs ≡ length p.input = ground arith in
            rw same (elim v [ inl r ↦ inl r | inr (z, w) ↦ inr (rw l z, w ∙ sym l) ])
      ]

  ran-IsPlanned :
      (p q : Psd Double)
      → IsInPlace lib
      → IsPlanned p
      → calculate fl lib p ≡ calculated q
      → IsPlanned q
  ran-IsPlanned p q laws v e =
      let (r, f, w) = calculate-IsPlanned fl lib p laws v in
      let same : r ≡ q = ap (λ c. elim c [ calculated x ↦ x | _ ↦ r ]) (sym f ∙ e) in
      subst IsPlanned same w

  Reach-IsPlanned : (p : Psd Double) → IsInPlace lib → Reach p → IsPlanned p
  unfolding new_psd set_window
  Reach-IsPlanned p laws (begun w) = inl refl
  Reach-IsPlanned p laws (set_size n r) = set_nfft-IsPlanned n _ (Reach-IsPlanned _ laws r)
  Reach-IsPlanned p laws (set_rate f r) = set_fsamp-IsPlanned f _ (Reach-IsPlanned _ laws r)
  Reach-IsPlanned p laws (given xs m r) = set_input-IsPlanned xs m _ (Reach-IsPlanned _ laws r)
  Reach-IsPlanned p laws (windowed_by w r) = inl refl
  Reach-IsPlanned q laws (ran r e) = ran-IsPlanned _ q laws (Reach-IsPlanned _ laws r) e

  -- Whatever inputs, sizes, rates and windows are set, in any order with calculations, no assertion
  -- of the next calculation fails, nothing is read beyond the window, and afterwards a new plan is due
  -- or the plans, the bins, the output and the window fit the input. A plan is made for every part
  -- that is asked for, and its making leaves as many numbers in place as there were.
  pub Reach-calculate :
      (p : Psd Double)
      → IsInPlace lib
      → Reach p
      → (q : Psd Double) × (calculate fl lib p ≡ calculated q) × IsPlanned q
  Reach-calculate p laws r = calculate-IsPlanned fl lib p laws (Reach-IsPlanned p laws r)
