-- ===== src/Arrays/Select.antt =====
-- The subroutines of pscApp/src/aSubOperations.cpp that treat each element by itself:
-- `subApplyCoefficient`, `subSlice`, `subSampling`, `subArraySubtraction`, `subArrayStatsVariance`,
-- `subZero` and `subCopyWaveform`.
pub mod Fuel
use pscdrv.Common.{
  ℕ, zero, suc, List, [], ◌∷◌, length, get_or, map, replicate, overwrite, overwrite_at, Bool, ltb,
  ◌==◌, not, ◌&&◌, ◌||◌, Option, none, some, if◌then◌else◌, ◌+◌, ◌/◌, ◌%◌, ◌^◌,
}
use pscdrv.Floating.{Floating}

module _ (fl : Floating) where
  open fl use {Float, Double, sub, eq, of_int, widen, narrow, literal}

  -- The VALA of each, from what it holds. NOA and NOB are the lengths of A and B, and NOVA is that of
  -- VALA.
  unfoldable pub apply_coefficient : List Float → Double → Double → Bool → List Float → List Float
  apply_coefficient a coeff offset is_inverse vala =
      if not (length a == length vala)
      then vala
      else if is_inverse && eq coeff (literal "0.0")
          || eq offset (literal "0.0") && eq coeff (literal "1.0")
      then a
      else map
          (λ x.
            let y = fl.sub_double (widen x) offset in
            narrow (if is_inverse then fl.div y coeff else fl.mul y coeff))
          a

  -- VALB to VALF are the elements of A at the places B to F; `beyond i` is what memory holds at place
  -- `i` of A where it has no such element.
  unfoldable pub slice : (ℕ → Float) → List Float → List ℕ → List Float
  slice beyond a points = map (λ i. get_or a i (beyond i)) points

  -- The loop of `subSampling`, from place `i` on, with fuel; nothing comes out of a division by 0.
  -- `i` is unsigned.
  unfoldable pub sampling_from :
      ℕ → List Float → (ℕ → Float) → ℕ → ℕ → List Float → Option (List Float)
  sampling_from zero a beyond divider i vala = some vala
  sampling_from (suc fuel) a beyond divider i vala =
      let rest =
        sampling_from fuel a beyond divider ((i + divider) % 2 ^ 32)
          (overwrite_at (i / divider) (get_or a i (beyond i) ∷ []) vala) in
      if not (ltb i (length a))
      then some vala
      else if divider == 0
      then none
      else if not (ltb (i / divider) (length vala))
      then some vala
      else rest

  -- `9-shift` is 5. The fuel is enough where the divider and NOA make no more than 2 ^ 32.
  unfoldable pub sampling : List Float → (ℕ → Float) → ℕ → List Float → Option (List Float)
  unfolding sampling_from
  sampling a beyond divider vala = sampling_from (suc (length a)) a beyond divider 5 vala

  unfoldable pub differences : List Float → List Float → List Float
  differences [] b = []
  differences (x ∷ a) [] = []
  differences (x ∷ a) (y ∷ b) = sub x y ∷ differences a b

  unfoldable pub array_subtraction : List Float → List Float → List Float → List Float
  unfolding differences
  array_subtraction a b vala =
      if not (length a == length b) || not (length a == length vala) then vala else differences a b

  -- VALA and VALB; the functions of the statistics library are arguments.
  unfoldable pub array_stats_variance :
      (List Float → Double) → (List Float → Double → Double) → List Float → Double × Double
  array_stats_variance mean sd_with_fixed_mean a = (sd_with_fixed_mean a (mean a), mean a)

  -- VALA, VALB and VALC after the call; all of them have the length of VALA or more.
  unfoldable pub zero_all :
      List Float → List Float → List Float → List Float × List Float × List Float
  zero_all vala valb valc =
      let zeros = replicate (length vala) (narrow (literal "0.0")) in
      (zeros, overwrite zeros valb, overwrite zeros valc)

  -- `sel` is C.
  unfoldable pub copy_waveform : List Float → List Float → ℕ → List Float → List Float
  copy_waveform a b sel vala =
      if not (length a == length vala) || not (length b == length vala)
      then vala
      else if sel == 1
      then a
      else if sel == 2
      then b
      else vala
