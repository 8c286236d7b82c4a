-- ===== src/Table/Update/Accepted.antt =====
-- What an update of the table that ends without an alarm has checked.
use pscdrv.Common.{
  ℕ, List, [], ◌∷◌, ◌++◌, length, take, Bool, false, Option, none, some, ◌≡◌, ◌≢◌, refl, inl, inr,
  arith, Bool-cases, ◌+◌, ltb,
}
use pscdrv.Block.{Block}
use pscdrv.Psc.State.{Env, Psc}
use pscdrv.Dev.Link.{success}
use pscdrv.Floating.{Floating}
use pscdrv.Table.{Controller}
use pscdrv.Table.Ramp.{
  Verdict, fine, out_of_range, too_steep, too_bent, steep_at_close, bent_at_end, bent_at_begin,
  overrun, check_ramp_function,
}
use pscdrv.Table.Ramp.Points.{IsRamp, check_ramp_function-IsRamp}
use pscdrv.Table.Update.{
  Tables, Updated, update_with, ended, crashed, overran, Room, is_unipolar, proc_update_target,
  reg_polarity_offset,
}
use pscdrv.Table.Update.Whole.{update, asked, unipolar_of}

module _ (fl : Floating) (solve : List (List fl.Double) → List fl.Double → List fl.Double)
    (beyond behind : ℕ → fl.Float) (blank : fl.Float) (env : Env) (junk : ℕ) (first second : Room)
    (elements : List fl.Float) where
  open fl use {Float}

  fine_of :
      (c : Verdict) (good bad : Updated (Tables Float)) (s : Tables Float)
      → bad ≢ ended success none s
      → (elim c [ overrun ↦ overran | fine ↦ good | _ ↦ bad ]) ≡ ended success none s
      → c ≡ fine
  fine_of fine good bad s h e = refl
  fine_of overrun good bad s h e = ground arith
  fine_of out_of_range good bad s h e = absurd (h e)
  fine_of too_steep good bad s h e = absurd (h e)
  fine_of too_bent good bad s h e = absurd (h e)
  fine_of steep_at_close good bad s h e = absurd (h e)
  fine_of bent_at_end good bad s h e = absurd (h e)
  fine_of bent_at_begin good bad s h e = absurd (h e)

  update_with_fine :
      (b : Block) (s s' : Tables Float)
      → update fl solve beyond behind blank env junk first second elements b s
        ≡ ended success none s'
      → check_ramp_function fl
          (is_unipolar env.host b)
          s.control.max_delta1
          s.control.max_delta2
          elements
          elements
        ≡ fine
  unfolding update_with
  update_with_fine b s s' e =
      elim (Bool-cases (ltb (length b.data_bytes) (reg_polarity_offset + 4))) [
        | inl short ↦ absurd (ground arith)
        | inr enough ↦ fine_of _ _ _ s' (λ x. ground arith) (rw enough at e)
      ]

  fine-IsRamp :
      (unipolar : Bool) (max_delta1 max_delta2 : Float) (xs : List Float)
      → check_ramp_function fl unipolar max_delta1 max_delta2 xs xs ≡ fine
      → IsRamp fl unipolar max_delta1 max_delta2 (xs ++ take 2 xs)
  unfolding check_ramp_function
  fine-IsRamp unipolar max_delta1 max_delta2 [] e = absurd (ground arith)
  fine-IsRamp unipolar max_delta1 max_delta2 (y0 ∷ []) e = absurd (ground arith)
  fine-IsRamp unipolar max_delta1 max_delta2 (y0 ∷ y1 ∷ ys) e =
      (check_ramp_function-IsRamp fl unipolar max_delta1 max_delta2 (y0 ∷ y1 ∷ ys) ys y0 y1).0 e

  found-IsRamp :
      (s s' : Tables Float) (o : Option Block)
      → (elim o [
        | none ↦ crashed
        | some b ↦ update fl solve beyond behind blank env junk first second elements b s
      ])
        ≡ ended success none s'
      → IsRamp fl
          (elim o [ none ↦ false | some b ↦ is_unipolar env.host b ])
          s.control.max_delta1
          s.control.max_delta2
          (elements ++ take 2 elements)
  found-IsRamp s s' none e = absurd (ground arith)
  found-IsRamp s s' (some b) e = fine-IsRamp _ _ _ elements (update_with_fine b s s' e)

  -- An update that ends without an alarm, on a PSC that is connected or not, had a table, with its first
  -- two points again behind the last, of which no comparison found a point that two more follow above
  -- 9.9999, below 0 with one polarity or below -10 with two, a step from it above the first bound, or
  -- a difference of that step to the next above the second. The polarity is that of the status message.
  -- A comparison with a NaN finds nothing, so such a point is accepted.
  pub proc_update_target-IsRamp :
      (t : Controller Float) (tx : Psc) (rx : Option Psc) (s' : Tables Float)
      → let s : Tables Float = record { control = t; tx = tx; rx = rx } in
        proc_update_target fl solve beyond behind blank env junk first second elements s
          ≡ ended success none s'
        → let s : Tables Float = record { control = t; tx = tx; rx = rx } in
          IsRamp fl
            (unipolar_of fl solve beyond behind blank env junk first second elements s)
            t.max_delta1
            t.max_delta2
            (elements ++ take 2 elements)
  unfolding proc_update_target
  proc_update_target-IsRamp t tx none s' e =
      found-IsRamp (asked fl solve beyond behind blank env junk first second elements t tx none) s'
        _ e
  proc_update_target-IsRamp t tx (some p) s' e =
      found-IsRamp (asked fl solve beyond behind blank env junk first second elements t tx (some p))
        s' _ e
