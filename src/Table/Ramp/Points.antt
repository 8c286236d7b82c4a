-- ===== src/Table/Ramp/Points.antt =====
-- What `check_ramp_function` accepts.
use pscdrv.Common.{
  List, [], ◌∷◌, ◌++◌, drop, get_or, length, length-append, suc, ◌<◌, ◌+◌, if◌then◌else◌, Bool,
  true, false, ◌≡◌, ◌≢◌, refl, ◌↔◌, arith, ap, sym, ◌∙◌, Bool-cases, inl, inr,
}
use pscdrv.Floating.{Floating}
use pscdrv.Table.Ramp.{Verdict, fine, out_of_range, is_outside, check_points, check_ramp_function}

-- A chain of three tests is fine only where none of them holds.
fine_only :
    (o s b : Bool) (v w next : Verdict)
    → v ≢ fine
    → w ≢ fine
    → (if o then out_of_range else if s then v else if b then w else next) ≡ fine
    → (o ≡ false) × (s ≡ false) × (b ≡ false) × (next ≡ fine)
fine_only o s b v w next p q h = (ground arith, ground arith, ground arith, ground arith)

module _ (fl : Floating) (unipolar : Bool) (max_delta1 max_delta2 : fl.Float) where
  open fl use {Float}

  -- No comparison finds the point above 9.9999, or below 0 with one polarity, or below -10 with two.
  abbrev pub InRange : Float → Type 0
  InRange x =
      (fl.gt (fl.widen x) (fl.literal "9.9999") ≡ false)
      × (unipolar ≡ true → fl.lt (fl.widen x) (fl.literal "0.0") ≡ false)
      × (unipolar ≡ false → fl.lt (fl.widen x) (fl.minus (fl.literal "10.0")) ≡ false)

  -- Nor the step after it above the first bound, or the difference of the two steps after it above the
  -- second.
  abbrev pub IsGood : Float → Float → Float → Type 0
  IsGood x0 x1 x2 =
      InRange x0
      × (fl.gt (fl.widen (fl.abs (fl.sub x1 x0))) (fl.widen max_delta1) ≡ false)
      × (fl.gt (fl.widen (fl.abs (fl.sub (fl.sub x1 x0) (fl.sub x2 x1)))) (fl.widen max_delta2)
          ≡ false)

  is_outside-InRange :
      (x : Float) → is_outside fl unipolar max_delta1 max_delta2 x ≡ false → InRange x
  is_outside-InRange x h = (ground arith, λ u. ground arith, λ u. ground arith)

  InRange-is_outside :
      (x : Float) → InRange x → is_outside fl unipolar max_delta1 max_delta2 x ≡ false
  InRange-is_outside x (high, low, deep) = elim (Bool-cases unipolar) [
    | inl u ↦ ground (arith, low u)
    | inr u ↦ ground (arith, deep u)
  ]

  -- Every three consecutive points of the list, wherever they stand.
  abbrev pub IsRamp : List Float → Type 0
  IsRamp xs =
      (pre rest : List Float) (x0 x1 x2 : Float)
      → xs ≡ pre ++ (x0 ∷ x1 ∷ x2 ∷ rest)
      → IsGood x0 x1 x2

  IsRamp-tail : (x : Float) (xs : List Float) → IsRamp (x ∷ xs) → IsRamp xs
  IsRamp-tail x xs h pre rest x0 x1 x2 e = h (x ∷ pre) rest x0 x1 x2 (ap (◌∷◌ x) e)

  IsRamp-cons :
      (x0 x1 x2 : Float) (rest : List Float)
      → IsGood x0 x1 x2
      → IsRamp (x1 ∷ x2 ∷ rest)
      → IsRamp (x0 ∷ x1 ∷ x2 ∷ rest)
  IsRamp-cons x0 x1 x2 rest g h [] rest' z0 z1 z2 e =
      let a : x0 ≡ z0 = ap (λ l. get_or l 0 x0) e in
      let b : x1 ≡ z1 = ap (λ l. get_or l 1 x0) e in
      let c : x2 ≡ z2 = ap (λ l. get_or l 2 x0) e in rw (sym a, sym b, sym c) g
  IsRamp-cons x0 x1 x2 rest g h (p ∷ pre) rest' z0 z1 z2 e = h pre rest' z0 z1 z2 (ap (drop 1) e)

  pub IsRamp-short : (xs : List Float) → length xs < 3 → IsRamp xs
  IsRamp-short xs h pre rest x0 x1 x2 e =
      let n : length xs ≡ length pre + suc (suc (suc (length rest))) =
        ap length e ∙ length-append pre (x0 ∷ x1 ∷ x2 ∷ rest) in
      absurd (omega arith)

  check_points-IsRamp :
      (xs : List Float) → check_points fl unipolar max_delta1 max_delta2 xs ≡ fine → IsRamp xs
  unfolding check_points
  check_points-IsRamp [] h = IsRamp-short [] (omega arith)
  check_points-IsRamp (x0 ∷ []) h = IsRamp-short (x0 ∷ []) (omega arith)
  check_points-IsRamp (x0 ∷ x1 ∷ []) h = IsRamp-short (x0 ∷ x1 ∷ []) (omega arith)
  check_points-IsRamp (x0 ∷ x1 ∷ x2 ∷ rest) h =
      let (o, s, b, next) = fine_only _ _ _ _ _ _ (ground arith) (ground arith) h in
      IsRamp-cons x0 x1 x2 rest (is_outside-InRange x0 o, s, b)
        (check_points-IsRamp (x1 ∷ x2 ∷ rest) next)

  IsRamp-check_points :
      (xs : List Float) → IsRamp xs → check_points fl unipolar max_delta1 max_delta2 xs ≡ fine
  unfolding check_points
  IsRamp-check_points [] h = refl
  IsRamp-check_points (x0 ∷ []) h = refl
  IsRamp-check_points (x0 ∷ x1 ∷ []) h = refl
  IsRamp-check_points (x0 ∷ x1 ∷ x2 ∷ rest) h =
      let g = h [] rest x0 x1 x2 refl in
      rw (InRange-is_outside x0 g.0, g.1, g.2)
        (IsRamp-check_points (x1 ∷ x2 ∷ rest) (IsRamp-tail x0 (x1 ∷ x2 ∷ rest) h))

  -- A check says that all is well just when of every three consecutive points of the first table, with
  -- the first two of the second behind it, no comparison finds the first above 9.9999, below 0 with one
  -- polarity or below -10 with two, the step after it above the first bound, or the difference of the
  -- two steps after it above the second. A comparison with a NaN finds nothing. The second table has
  -- two points.
  pub check_ramp_function-IsRamp :
      (v1 v2 : List Float) (y0 y1 : Float)
      → (check_ramp_function fl unipolar max_delta1 max_delta2 v1 (y0 ∷ y1 ∷ v2) ≡ fine)
        ↔ IsRamp (v1 ++ (y0 ∷ y1 ∷ []))
  unfolding check_ramp_function
  check_ramp_function-IsRamp v1 v2 y0 y1 =
      let xs = v1 ++ (y0 ∷ y1 ∷ []) in (check_points-IsRamp xs, IsRamp-check_points xs)
