-- ===== src/Arrays/Adc/Samples.antt =====
-- Where each sample goes.
use pscdrv.Common.{
  ℕ, zero, suc, List, [], ◌∷◌, ◌++◌, length, get_or, replicate, overwrite, leb, ltb, true, some,
  if◌then◌else◌, ◌+◌, ◌-◌, ◌*◌, ◌/◌, ◌%◌, ◌==◌, min, ◌≡◌, refl, ap, ◌∙◌, sym, ◌<◌, ◌≤◌, arith,
  Bool-cases, inl, inr, get_or-append_lt, get_or-append_ge, get_or-replicate, get_or-overwrite,
  length-append, length-replicate,
}
use pscdrv.Floating.{Floating}
use pscdrv.Arrays.Adc.{shift, last_of, volts, samples, exchange, store_volts, adc_wf_proc}

module _ (fl : Floating) (beyond : ℕ → fl.Double) (a : List fl.Double) where
  open fl use {Float, Double}

  length-exchange : (k j : ℕ) → length (exchange fl (samples fl beyond a j (2 * k))) ≡ 2 * k
  unfolding exchange samples
  length-exchange zero j = refl
  length-exchange (suc k) j =
      let e : 2 * suc k ≡ suc (suc (2 * k)) = omega arith in
      rw e (ap (λ n. suc (suc n)) (length-exchange k (suc (suc j))))

  -- The samples of a pair change places.
  get_or-exchange :
      (k j i : ℕ) (d : Float)
      → i < k
      → let out = exchange fl (samples fl beyond a j (2 * k)) in
        let at = λ (p : ℕ). volts fl (get_or a (j + p) (beyond (j + p))) in
        (get_or out (2 * i) d ≡ at (2 * i + 1)) × (get_or out (2 * i + 1) d ≡ at (2 * i))
  unfolding exchange samples
  get_or-exchange zero j i d h = absurd (omega arith)
  get_or-exchange (suc k) j zero d h =
      let e : 2 * suc k ≡ suc (suc (2 * k)) = omega arith in
      let f : j + (2 * 0 + 1) ≡ suc j = omega arith in
      let g : j + 2 * 0 ≡ j = omega arith in rw (e, f, g) (refl, refl)
  get_or-exchange (suc k) j (suc i) d h =
      let e : 2 * suc k ≡ suc (suc (2 * k)) = omega arith in
      let s : 2 * suc i ≡ suc (suc (2 * i)) = omega arith in
      let t : 2 * suc i + 1 ≡ suc (suc (2 * i + 1)) = omega arith in
      let f : j + suc (suc (2 * i + 1)) ≡ suc (suc j) + (2 * i + 1) = omega arith in
      let g : j + suc (suc (2 * i)) ≡ suc (suc j) + 2 * i = omega arith in
      rw (t, s, e, f, g) (get_or-exchange k (suc (suc j)) i d (omega arith))

  last_of-get_or :
      (x : Float) (xs : List Float) (d : Float) → last_of x xs ≡ get_or (x ∷ xs) (length xs) d
  last_of-get_or x [] d = refl
  last_of-get_or x (y ∷ xs) d = last_of-get_or y xs d

  get_or-filled :
      (x : Float) (xs : List Float) (fill p : ℕ) (d : Float)
      → p < suc (length xs) + fill
      → get_or ((x ∷ xs) ++ replicate fill (last_of x xs)) p d
        ≡ get_or (x ∷ xs) (min p (length xs)) d
  get_or-filled x xs fill p d h = elim (Bool-cases (ltb p (suc (length xs)))) [
    | inl inside ↦
        let m : min p (length xs) ≡ p = ground arith in
        rw m (get_or-append_lt (x ∷ xs) (replicate fill (last_of x xs)) p d (ground arith))
    | inr behind ↦
        let m : min p (length xs) ≡ length xs = ground arith in
        rw m (
          get_or-append_ge (x ∷ xs) (replicate fill (last_of x xs)) p d (ground arith)
          ∙ get_or-replicate fill (p - suc (length xs)) (last_of x xs) d (ground arith)
          ∙ last_of-get_or x xs d)
  ]

  store_volts-get_or :
      (fill : ℕ) (words vala : List Float) (p : ℕ) (d : Float)
      → 0 < length words
      → length words + fill ≤ length vala
      → p < length words + fill
      → (out : List Float) × (store_volts fl fill words vala ≡ some out)
        × (get_or out p d ≡ get_or words (min p (length words - 1)) d)
  unfolding store_volts
  store_volts-get_or fill [] vala p d some_word room h = absurd (omega arith)
  store_volts-get_or fill (x ∷ xs) vala p d some_word room h =
      let out = (x ∷ xs) ++ replicate fill (last_of x xs) in
      let size : length out ≡ suc (length xs) + fill =
        length-append (x ∷ xs) (replicate fill (last_of x xs))
        ∙ ap (◌+◌ (suc (length xs))) (length-replicate fill (last_of x xs)) in
      let fits : leb (length out) (length vala) ≡ true = ground (arith, size) in
      let m : suc (length xs) - 1 ≡ length xs = omega arith in
      (
        overwrite out vala,
        rw fits refl,
        rw m (
            get_or-overwrite out vala p d (omega (arith, size)) (omega (arith, size))
            ∙ get_or-filled x xs fill p d h),
      )

  -- The sample that place `p` gets, of `2 * k` samples.
  abbrev pub source : ℕ → ℕ → ℕ
  source k p = let q = min p (2 * k - 1) in if q % 2 == 0 then q + 1 else q - 1

  get_or-exchange-source :
      (k j p : ℕ) (d : Float)
      → 0 < k
      → get_or (exchange fl (samples fl beyond a j (2 * k))) (min p (2 * k - 1)) d
        ≡ volts fl (get_or a (j + source k p) (beyond (j + source k p)))
  get_or-exchange-source k j p d h =
      let q = min p (2 * k - 1) in
      let pair = get_or-exchange k j (q / 2) d (ground arith) in
      let out = λ (n : ℕ). get_or (exchange fl (samples fl beyond a j (2 * k))) n d in
      let at = λ (n : ℕ). volts fl (get_or a (j + n) (beyond (j + n))) in
      elim (Bool-cases (q % 2 == 0)) [
        | inl even ↦
            let e : q ≡ 2 * (q / 2) = ground arith in
            let from : source k p ≡ 2 * (q / 2) + 1 = ground arith in
            ap out e ∙ pair.0 ∙ ap at (sym from)
        | inr odd ↦
            let e : q ≡ 2 * (q / 2) + 1 = ground arith in
            let from : source k p ≡ 2 * (q / 2) = ground arith in
            ap out e ∙ pair.1 ∙ ap at (sym from)
      ]

  -- A reading of an even number of samples, not counting the ones that are passed over, goes out with
  -- the samples of each pair exchanged, in volts, and the places behind them get what the last of
  -- them has. VALA has at least C places, and C is at least the number of samples.
  pub adc_wf_proc-source :
      (read_length wf_length k p : ℕ) (vala : List Float) (d : Float)
      → read_length - shift read_length ≡ 2 * k
      → 0 < k
      → 2 * k ≤ wf_length
      → wf_length ≤ length vala
      → p < wf_length
      → let i = shift read_length + source k p in
        (out : List Float) × (adc_wf_proc fl beyond a read_length wf_length vala ≡ some out)
        × (get_or out p d ≡ volts fl (get_or a i (beyond i)))
  unfolding adc_wf_proc
  adc_wf_proc-source read_length wf_length k p vala d even some_pair fits room h =
      let words = exchange fl (samples fl beyond a (shift read_length) (2 * k)) in
      let size : length words ≡ 2 * k = length-exchange k (shift read_length) in
      let (out, e, v) =
        store_volts-get_or (wf_length - 2 * k) words vala p d (omega (arith, size))
          (omega (arith, size)) (omega (arith, size)) in
      let at : get_or out p d
          ≡ volts fl (
              get_or a (shift read_length + source k p) (beyond (shift read_length + source k p))) =
        v
        ∙ ap (λ n. get_or words (min p (n - 1)) d) size
        ∙ get_or-exchange-source k (shift read_length) p d some_pair in
      rw even (out, e, at)
