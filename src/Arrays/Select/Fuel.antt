-- ===== src/Arrays/Select/Fuel.antt =====
-- The fuel of `subSampling` is enough.
use pscdrv.Common.{
  ℕ, zero, suc, List, [], ◌∷◌, length, get_or, overwrite_at, ltb, ◌==◌, not, false, true, some, ◌≡◌,
  refl, ap, subst, sym, ◌∙◌, if◌then◌else◌, ◌+◌, ◌/◌, ◌%◌, ◌^◌, ◌≤◌, arith, Bool-cases, inl, inr,
}
use pscdrv.Floating.{Floating}
use pscdrv.Arrays.Select.{sampling_from, sampling}

module _ (fl : Floating) where
  open fl use {Float}

  -- One round within the array.
  round :
      (fuel : ℕ) (a : List Float) (beyond : ℕ → Float) (divider i : ℕ) (vala : List Float)
      → ltb i (length a) ≡ true
      → (divider == 0) ≡ false
      → sampling_from fl (suc fuel) a beyond divider i vala ≡ (
          if not (ltb (i / divider) (length vala))
          then some vala
          else sampling_from fl fuel a beyond divider
              ((i + divider) % 2 ^ 32)
              (overwrite_at (i / divider) (get_or a i (beyond i) ∷ []) vala))
  unfolding sampling_from
  round fuel a beyond divider i vala within some_left = rw (within, some_left) refl

  -- Fuel that reaches the end of the array is as good as more.
  sampling_from-suc :
      (fuel : ℕ) (a : List Float) (beyond : ℕ → Float) (divider i : ℕ) (vala : List Float)
      → length a + divider ≤ 2 ^ 32
      → length a ≤ i + fuel
      → sampling_from fl fuel a beyond divider i vala
        ≡ sampling_from fl (suc fuel) a beyond divider i vala
  unfolding sampling_from
  sampling_from-suc zero a beyond divider i vala h k =
      let past : ltb i (length a) ≡ false = ground arith in rw past refl
  sampling_from-suc (suc fuel) a beyond divider i vala h k = elim (Bool-cases (ltb i (length a))) [
    | inr past ↦ rw past refl
    | inl within ↦ elim (Bool-cases (divider == 0)) [
      | inl none_left ↦ rw (within, none_left) refl
      | inr some_left ↦
          let next : (i + divider) % 2 ^ 32 ≡ i + divider = ground arith in
          let vala' = overwrite_at (i / divider) (get_or a i (beyond i) ∷ []) vala in
          let rest =
            subst
              (λ k.
                sampling_from fl fuel a beyond divider k vala'
                ≡ sampling_from fl (suc fuel) a beyond divider k vala')
              (sym next)
              (sampling_from-suc fuel a beyond divider (i + divider) vala' h (ground arith)) in
          round fuel a beyond divider i vala within some_left
          ∙ ap (λ r. if not (ltb (i / divider) (length vala)) then some vala else r) rest
          ∙ sym (round (suc fuel) a beyond divider i vala within some_left)
    ]
  ]

  -- Where the divider and NOA make no more than 2 ^ 32, a run with any more fuel is the same.
  pub sampling-fuel :
      (more : ℕ) (a : List Float) (beyond : ℕ → Float) (divider : ℕ) (vala : List Float)
      → length a + divider ≤ 2 ^ 32
      → sampling_from fl (suc (length a) + more) a beyond divider 5 vala
        ≡ sampling fl a beyond divider vala
  unfolding sampling
  sampling-fuel zero a beyond divider vala h =
      let e : suc (length a) + 0 ≡ suc (length a) = omega arith in rw e refl
  sampling-fuel (suc more) a beyond divider vala h =
      let e : suc (length a) + suc more ≡ suc (suc (length a) + more) = omega arith in
      rw e (
        sym (sampling_from-suc (suc (length a) + more) a beyond divider 5 vala h (omega arith))
        ∙ sampling-fuel more a beyond divider vala h)
