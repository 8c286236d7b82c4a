-- ===== src/Dev/Analog/Inverse.antt =====
-- The two conversions of an analog record undo each other where no digit is lost, and EOFF is 0.
use pscdrv.Common.{Bool, true, false, ◌≡◌, refl, if◌then◌else◌}
use pscdrv.Dev.Analog.{Floats, Scaling, raw_to_egu, egu_to_raw}

module _ (fl : Floats) (sub_add : (a b : fl.Real) → fl.sub (fl.add a b) b ≡ a)
    (div_mul : (a b : fl.Real) → fl.is_zero b ≡ false → fl.div (fl.mul a b) b ≡ a) where
  -- The two blocks of the conversions that a test guards.
  unscale :
      (z : Bool) (a b : fl.Real)
      → fl.is_zero b ≡ z
      → (if z then (if z then a else fl.mul a b) else fl.div (if z then a else fl.mul a b) b) ≡ a
  unscale true a b e = refl
  unscale false a b e = div_mul a b e

  unslope :
      (l : Bool) (a off slo : fl.Real)
      → (l ≡ true
          → (fl.is_zero slo ≡ false) × ((c : fl.Real) → (fl.add c off ≡ c) × (fl.sub c off ≡ c)))
      → (if l
          then fl.div (fl.sub (if l then fl.mul (fl.add a off) slo else a) off) slo
          else (if l then fl.mul (fl.add a off) slo else a))
        ≡ a
  unslope true a off slo h =
      let (slope, neutral) = h refl in
      rw ((neutral a).0, (neutral (fl.mul a slo)).1) (div_mul a slo slope)
  unslope false a off slo h = refl

-- `analogEGU2Raw` takes `analogRaw2EGU` back, in an arithmetic in which a subtraction takes back an
-- addition and a division by a number other than 0 takes back a multiplication by it, whether ASLO
-- is 0 or not: for a record whose LINR is not linear, and for one with an ESLO other than 0 and an
-- EOFF that changes no number when it is added or subtracted.
egu_to_raw-raw_to_egu :
    (fl : Floats) (s : Scaling fl.Real) (x : fl.Real)
    → ((a b : fl.Real) → fl.sub (fl.add a b) b ≡ a)
    → ((a b : fl.Real) → fl.is_zero b ≡ false → fl.div (fl.mul a b) b ≡ a)
    → (s.linear ≡ true
        → (fl.is_zero s.eslo ≡ false)
          × ((c : fl.Real) → (fl.add c s.eoff ≡ c) × (fl.sub c s.eoff ≡ c)))
    → egu_to_raw fl s (raw_to_egu fl s x) ≡ x
unfolding raw_to_egu egu_to_raw
egu_to_raw-raw_to_egu fl s x sub_add div_mul flat =
    let v = fl.add x s.roff in
    let scaled = if fl.is_zero s.aslo then v else fl.mul v s.aslo in
    rw
      (
        egu_to_raw,
        raw_to_egu,
        unslope fl sub_add div_mul s.linear (fl.add scaled s.aoff) s.eoff s.eslo flat,
        sub_add scaled s.aoff,
        unscale fl sub_add div_mul (fl.is_zero s.aslo) v s.aslo refl,
      )
      (sub_add x s.roff)
