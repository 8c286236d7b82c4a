-- ===== src/Table/Ramp.antt =====
-- `check_ramp_function` of pscApp/src/psctbl.cpp.
pub mod Points
use pscdrv.Common.{ℕ, List, [], ◌∷◌, ◌++◌, Bool, true, false, not, ◌&&◌, ◌||◌, if◌then◌else◌}
use pscdrv.Floating.{Floating}

-- The return value: 0, then 1, 2 and 3, then -1, -2 and -3. `overrun`: `v2` has no two points, and
-- memory behind it is read.
pub data Verdict : Type 0 where
  fine out_of_range too_steep too_bent steep_at_close bent_at_end bent_at_begin overrun : Verdict

abbrev pub is_positive : Verdict → Bool
is_positive out_of_range = true
is_positive too_steep = true
is_positive too_bent = true
is_positive fine = false
is_positive steep_at_close = false
is_positive bent_at_end = false
is_positive bent_at_begin = false
is_positive overrun = false

abbrev pub is_negative : Verdict → Bool
is_negative steep_at_close = true
is_negative bent_at_end = true
is_negative bent_at_begin = true
is_negative fine = false
is_negative out_of_range = false
is_negative too_steep = false
is_negative too_bent = false
is_negative overrun = false

module _ (fl : Floating) (unipolar : Bool) (max_delta1 max_delta2 : fl.Float) where
  open fl use {Float}

  abbrev pub is_outside : Float → Bool
  is_outside x =
      fl.gt (fl.widen x) (fl.literal "9.9999")
      || (unipolar && fl.lt (fl.widen x) (fl.literal "0.0"))
      || (not unipolar && fl.lt (fl.widen x) (fl.minus (fl.literal "10.0")))

  abbrev pub is_steep : Float → Float → Bool
  is_steep x0 x1 = fl.gt (fl.widen (fl.abs (fl.sub x1 x0))) (fl.widen max_delta1)

  abbrev pub is_bent : Float → Float → Float → Bool
  is_bent x0 x1 x2 =
      fl.gt (fl.widen (fl.abs (fl.sub (fl.sub x1 x0) (fl.sub x2 x1)))) (fl.widen max_delta2)

  -- The loop, on what is left of `vector`: its end stands three points on where nothing follows `x2`,
  -- and four where one point does.
  unfoldable pub check_points : List Float → Verdict
  check_points (x0 ∷ x1 ∷ x2 ∷ rest) =
      let next = check_points (x1 ∷ x2 ∷ rest) in
      if is_outside x0
      then out_of_range
      else if is_steep x0 x1
      then (elim rest [ [] ↦ steep_at_close | _ ∷ _ ↦ too_steep ])
      else if is_bent x0 x1 x2
      then (elim rest [
        | [] ↦ bent_at_begin
        | _ ∷ more ↦ elim more [ [] ↦ bent_at_end | _ ∷ _ ↦ too_bent ]
      ])
      else next
  check_points _ = fine

  unfoldable pub check_ramp_function : List Float → List Float → Verdict
  unfolding check_points
  check_ramp_function v1 (y0 ∷ y1 ∷ _) = check_points (v1 ++ (y0 ∷ y1 ∷ []))
  check_ramp_function v1 _ = overrun
