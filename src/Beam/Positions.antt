-- ===== src/Beam/Positions.antt =====
-- Beam positions: pscApp/src/bpm_aSubUtils.c, posPolyCoeffCal.c and slicer2.c. A function is `none`
-- where the code reads or writes beyond an array.
pub mod Bounds
use pscdrv.Common.{
  ℕ, zero, suc, List, [], ◌∷◌, ◌++◌, length, take, drop, replicate, Bool, true, false, not, ◌||◌,
  ◌&&◌, Option, none, some, map, leb, ltb, ◌==◌, if◌then◌else◌, ◌+◌, ◌*◌, ◌^◌, overwrite,
}
use pscdrv.Floating.{Floating}

module _ {ℓ} {A : Type ℓ} where
  abbrev pub get_elem? : List A → ℕ → Option A
  get_elem? [] i = none
  get_elem? (x ∷ xs) zero = some x
  get_elem? (x ∷ xs) (suc i) = get_elem? xs i

infixl 5 ◌>>=◌
abbrev pub ◌>>=◌ {ℓ κ} : {A : Type ℓ} {B : Type κ} → Option A → (A → Option B) → Option B
none >>= f = none
some a >>= f = f a

-- The size of the static arrays.
abbrev pub max_points : ℕ
max_points = 200000

-- `f(i)` for `i` below `n`: the elements must be there, and fit into a static array.
abbrev pub filled : {A B : Type 0} → (A → B) → ℕ → List A → List B → Option (List B)
filled f n xs old =
    if leb n (length xs) && leb n (length old)
    then some (overwrite (map f (take n xs)) old)
    else none

-- `memcpy` of `noa` elements of a static array.
abbrev pub copied : {B : Type 0} → ℕ → List B → Option (List B)
copied noa values = if leb noa (length values) then some (take noa values) else none

-- subSlice2; the output is kept where the index is out of range. `noa` is unsigned.
unfoldable pub sub_slice2 : {A : Type 0} → List A → ℕ → A → A
sub_slice2 a idx vala = elim (get_elem? a idx) [ none ↦ vala | some x ↦ x ]

module _ (fl : Floating) where
  open fl use {
    Float, Double, widen, narrow, mul, add, div, sub_double, pow, literal, of_long, of_int, sub,
    mul_float, add_float, div_float, eq,
  }

  -- `x * 0.000001`
  abbrev pub nm_to_mm : Float → Float
  nm_to_mm x = narrow (mul (widen x) (literal "0.000001"))

  abbrev pub zero_float : Float
  zero_float = narrow (of_int 0)

  -- The static arrays of a subroutine: every record that uses it shares them.
  pub record Statics : Type 0 where
    pub xs : List Float
    pub ys : List Float

  -- `bpmPosXyUnitConvrsion`, with the values of C and D; the two outputs behind the statics.
  unfoldable pub unit_conversion :
      ℕ → ℕ → List Float → List Float → Statics → Option (Statics × List Float × List Float)
  unit_conversion c n a b s =
      let noa = length a in
      let zeros = replicate noa zero_float in
      if not (c == 0) then some (s, zeros, zeros) else (do
        data_x ← filled nm_to_mm n a s.xs
        data_y ← filled nm_to_mm n b s.ys
        vala ← copied noa data_x
        valb ← copied noa data_y
        some (record { xs = data_x; ys = data_y }, vala, valb))

  pub record Coefficients : Type 0 where
    pub k1 : Float
    pub k3 : Float
    pub k5 : Float

  -- The loop body of `bpmWfmPolyCoeffCalSup` for one axis, from nm.
  abbrev pub corrected : Coefficients → Float → Float → Float → Float
  corrected k scale offset nm =
      let linear = div_float (sub (nm_to_mm nm) offset) scale in
      let p3 = narrow (pow (widen linear) 3) in
      let p5 = narrow (pow (widen linear) 5) in
      add_float
        (add_float (add_float (mul_float k.k1 linear) (mul_float k.k3 p3)) (mul_float k.k5 p5))
        offset

  unfoldable pub wfm_poly_coeff :
      Coefficients
      → (kx ky offset_x offset_y : Float) → List Float
      → List Float
      → Statics
      → Option (Statics × List Float × List Float)
  wfm_poly_coeff k kx ky offset_x offset_y a b s = do
    let noa = length a
    data_x ← filled (corrected k kx offset_x) noa a s.xs
    data_y ← filled (corrected k ky offset_y) noa b s.ys
    some (record { xs = data_x; ys = data_y }, take noa data_x, take noa data_y)

  -- `posPolyCoeffCalSup` for the axis that I selects.
  abbrev pub corrected_double : (k1 k3 k5 scale offset x : Double) → Double
  corrected_double k1 k3 k5 scale offset x =
      let linear = div (sub_double x offset) scale in
      add (add (add (mul k1 linear) (mul k3 (pow linear 3))) (mul k5 (pow linear 5))) offset

  unfoldable pub pos_poly_coeff : (a b k1 k3 k5 kx ky axis offset_x offset_y : Double) → Double
  pos_poly_coeff a b k1 k3 k5 kx ky axis offset_x offset_y =
      if eq axis (of_int 0)
      then corrected_double k1 k3 k5 kx offset_x a
      else corrected_double k1 k3 k5 ky offset_y b

  -- A button of `bpmPosButtonSum`, from its 64 bits.
  abbrev pub button : ℕ → Float
  button v = narrow (mul (of_long v) (literal "4.656612875245797e-10"))

  abbrev pub sums : List Float → List Float → List Float → List Float → List Float
  sums (a ∷ pa) (b ∷ pb) (c ∷ pc) (d ∷ pd) =
      add_float (add_float (add_float a b) c) d ∷ sums pa pb pc pd
  sums _ _ _ _ = []

  pub record Buttons : Type 0 where
    pub ab : List Float
    pub bb : List Float
    pub cb : List Float
    pub db : List Float
    pub bsum : List Float

  -- The new statics; each output is their first `noa` elements.
  unfoldable pub button_sum :
      ℕ → List ℕ → List ℕ → List ℕ → List ℕ → Buttons → Option (Buttons × Buttons)
  button_sum n a b c d s = do
    let noa = length a
    ab ← filled button n a s.ab
    bb ← filled button n b s.bb
    cb ← filled button n c s.cb
    db ← filled button n d s.db
    let bsum = overwrite (sums (take n ab) (take n bb) (take n cb) (take n db)) s.bsum
    vala ← copied noa ab
    valb ← copied noa bb
    valc ← copied noa cb
    vald ← copied noa db
    vale ← copied noa bsum
    some (
      record { ab = ab; bb = bb; cb = cb; db = db; bsum = bsum },
      record { ab = vala; bb = valb; cb = valc; db = vald; bsum = vale },
    )

  -- A place that a user gives, moved into 1 to 4999; a long that is below 0 is given by `negative`.
  abbrev pub clamped : Bool → ℕ → ℕ
  clamped negative f = if negative || ltb f 1 then 1 else if ltb 4999 f then 4999 else f

  -- The integral between two places.
  unfoldable pub between : List Float → ℕ → ℕ → Option Float
  between xs i j = do x ← get_elem? xs i; y ← get_elem? xs j; some (sub y x)

  -- The results of `cc_fa_bpmPsdIntCal` for one axis, at `f1` and `f2`.
  unfoldable pub integrals : List Float → ℕ → ℕ → Option (List Float)
  integrals xs f1 f2 = do
    hz_60 ← between xs 1 60
    hz_120 ← between xs 1 120
    hz_500 ← between xs 1 500
    khz_5 ← between xs 1 4999
    user ← between xs f1 f2
    some (hz_60 ∷ hz_120 ∷ hz_500 ∷ khz_5 ∷ user ∷ [])

  -- Both axes, with the element of C that is read and not used.
  unfoldable pub psd_integrals :
      List Float → List Float → List Float → Bool × ℕ → Bool × ℕ → Option (List Float × List Float)
  psd_integrals a b c (neg1, f1) (neg2, f2) = do
    freq_5hz ← get_elem? c 1
    x ← integrals a (clamped neg1 f1) (clamped neg2 f2)
    y ← integrals b (clamped neg1 f1) (clamped neg2 f2)
    some (x, y)
