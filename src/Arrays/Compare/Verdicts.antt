-- ===== src/Arrays/Compare/Verdicts.antt =====
-- What the results of `subArrayCompare` say of the signal.
use mathlib.Core.List.{zip}
use pscdrv.Common.{
  List, [], ◌∷◌, ◌++◌, length, ◌==◌, Bool, true, false, some, if◌then◌else◌, ◌≡◌, refl, ◌⊎◌, inl,
  inr, ap, arith, All, Bool-cases,
}
use pscdrv.Floating.{Floating}
use pscdrv.Arrays.Compare.{
  Tolerance, within, out_of_tolerance, far_out, wrong_table, compare_from, array_compare,
}

module _ (fl : Floating) (coeff : fl.Float) where
  open fl use {Float, widen}

  -- A point is a tolerance and a signal.
  abbrev pub is_wrong : Float × Float → Bool
  is_wrong (t, x) = fl.le (widen t) (fl.literal "0.0")

  abbrev pub is_out : Float × Float → Bool
  is_out (t, x) = fl.lt (widen t) (widen (fl.abs x))

  abbrev pub is_far : Float × Float → Bool
  is_far (t, x) = fl.lt (widen (fl.mul_float t coeff)) (widen (fl.abs x))

  -- The comparison goes on beyond the point.
  abbrev pub IsPassed : Float × Float → Type 0
  IsPassed p = (is_wrong p ≡ false) × (is_far p ≡ false)

  -- The points have one with the property, after points with the other.
  abbrev pub After :
      (Float × Float → Type 0) → (Float × Float → Type 0) → List (Float × Float) → Type 0
  After Q P ps =
      (pre : List (Float × Float)) × (post : List (Float × Float)) × (p : Float × Float) × (ps
        ≡ pre ++ (p ∷ post))
      × All Q pre
      × P p

  abbrev pub IsAny : Float × Float → Type 0
  IsAny p = Unit

  -- What the results say. 0: every signal is within its tolerance. 1: one is not, but all are within
  -- the scaled tolerance. 2: the first point that ends the comparison has a signal beyond it. -2:
  -- the first point that ends the comparison has a tolerance that is not positive.
  abbrev pub IsVerdict : Tolerance → List (Float × Float) → Type 0
  IsVerdict within ps = All (λ p. IsPassed p × (is_out p ≡ false)) ps
  IsVerdict out_of_tolerance ps = All IsPassed ps × After IsAny (λ p. is_out p ≡ true) ps
  IsVerdict far_out ps = After IsPassed (λ p. (is_wrong p ≡ false) × (is_far p ≡ true)) ps
  IsVerdict wrong_table ps = After IsPassed (λ p. is_wrong p ≡ true) ps

  After-cons :
      (Q P : Float × Float → Type 0) (q : Float × Float) (ps : List (Float × Float))
      → Q q
      → After Q P ps
      → After Q P (q ∷ ps)
  After-cons Q P q ps h (pre, post, p, e, all, v) = (q ∷ pre, post, p, ap (◌∷◌ q) e, (h, all), v)

  -- What the loop says of the points that are left, by the status that it starts with.
  abbrev From : Tolerance → Tolerance → List (Float × Float) → Type 0
  From status within ps = (status ≡ within) × IsVerdict within ps
  From status out_of_tolerance ps =
      All IsPassed ps × ((status ≡ out_of_tolerance) ⊎ After IsAny (λ p. is_out p ≡ true) ps)
  From status far_out ps = IsVerdict far_out ps
  From status wrong_table ps = IsVerdict wrong_table ps

  From-cons :
      (status r : Tolerance) (p : Float × Float) (ps : List (Float × Float)) (out : Bool)
      → is_out p ≡ out
      → IsPassed p
      → From (if out then out_of_tolerance else status) r ps
      → From status r (p ∷ ps)
  From-cons status within p ps false e h (same, all) = (same, ((h, e), all))
  From-cons status within p ps true e h (same, all) = absurd (ground arith)
  From-cons status out_of_tolerance p ps false e h (all, inl same) = ((h, all), inl same)
  From-cons status out_of_tolerance p ps false e h (all, inr some_out) =
      ((h, all), inr (After-cons IsAny (λ q. is_out q ≡ true) p ps tt some_out))
  From-cons status out_of_tolerance p ps true e h (all, any) =
      ((h, all), inr ([], ps, p, refl, tt, e))
  From-cons status far_out p ps out e h v =
      After-cons IsPassed (λ q. (is_wrong q ≡ false) × (is_far q ≡ true)) p ps h v
  From-cons status wrong_table p ps out e h v =
      After-cons IsPassed (λ q. is_wrong q ≡ true) p ps h v

  compare_from-From :
      (tol sub : List Float) (status : Tolerance)
      → length tol ≡ length sub
      → (status ≡ within) ⊎ (status ≡ out_of_tolerance)
      → From status (compare_from fl coeff tol sub status) (zip tol sub)
  unfolding compare_from zip
  compare_from-From [] [] status h (inl e) = rw e (refl, tt)
  compare_from-From [] [] status h (inr e) = rw e (tt, inl refl)
  compare_from-From [] (x ∷ sub) status h e = absurd (omega arith)
  compare_from-From (t ∷ tol) [] status h e = absurd (omega arith)
  compare_from-From (t ∷ tol) (x ∷ sub) status h e = elim (Bool-cases (is_wrong (t, x))) [
    | inl wrong ↦ rw wrong ([], zip tol sub, (t, x), refl, tt, wrong)
    | inr sound ↦ elim (Bool-cases (is_far (t, x))) [
      | inl far ↦ rw (sound, far) ([], zip tol sub, (t, x), refl, tt, (sound, far))
      | inr near ↦
          let status' = if is_out (t, x) then out_of_tolerance else status in
          let e' : (status' ≡ within) ⊎ (status' ≡ out_of_tolerance) = ground arith in
          rw (sound, near)
            (From-cons status _ (t, x) (zip tol sub) (is_out (t, x)) refl (sound, near)
              (compare_from-From tol sub status' (omega arith) e'))
    ]
  ]

  From-IsVerdict : (r : Tolerance) (ps : List (Float × Float)) → From within r ps → IsVerdict r ps
  From-IsVerdict within ps (e, v) = v
  From-IsVerdict out_of_tolerance ps (all, inl e) = absurd (ground arith)
  From-IsVerdict out_of_tolerance ps (all, inr v) = (all, v)
  From-IsVerdict far_out ps v = v
  From-IsVerdict wrong_table ps v = v

  -- Arrays of one length are compared, with a result that says which of four things holds: every
  -- tolerance is positive and every signal within it and within the scaled one; the same but that a
  -- signal is beyond its tolerance; or the first point for which it is not so has a signal beyond the
  -- scaled tolerance, or has a tolerance that is not positive.
  pub array_compare-IsVerdict :
      (tol sub : List Float)
      → length tol ≡ length sub
      → (r : Tolerance) × (array_compare fl coeff tol sub ≡ some r) × IsVerdict r (zip tol sub)
  unfolding array_compare
  array_compare-IsVerdict tol sub h =
      let same : (length tol == length sub) ≡ true = ground arith in
      (
        compare_from fl coeff tol sub within,
        rw same refl,
        From-IsVerdict _ (zip tol sub) (compare_from-From tol sub within h (inl refl)),
      )
