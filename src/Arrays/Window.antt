-- ===== src/Arrays/Window.antt =====
-- `subArrayMovingAverage` of pscApp/src/aSubOperations.cpp.
pub mod Mean
use pscdrv.Common.{
  ℕ, zero, suc, List, [], ◌∷◌, length, get_or, Bool, Option, none, some, leb, ltb, ◌==◌, not, ◌&&◌,
  if◌then◌else◌, ◌+◌, ◌-◌, ◌*◌, ◌/◌, ◌%◌, ◌^◌,
}
use pscdrv.Floating.{Floating}

-- The points that are averaged at one place: from `left` up to and without `stop - below`, where the
-- difference may be negative.
pub record Range : Type 0 where
  pub left : ℕ
  pub stop : ℕ
  pub below : ℕ

-- No int overflows here while `i + window` is below 2 ^ 31.
unfoldable pub range : ℕ → ℕ → ℕ → Range
range window count i =
    let left = if ltb window i then i - window else 0 in
    let l = if ltb window i then 0 else window - i in
    let right = if ltb (i + window) count then i + window else count - 1 in
    let r = if ltb (i + window) count then 0 else i + window - (count - 1) in
    if ltb r l
    then record { left = left; stop = right + 1; below = l }
    else record { left = left + r; stop = right + 1; below = 0 }

-- VALA and VALB after the call. VALB is a long.
pub record Averaged (Float : Type 0) : Type 0 where
  pub vala : List Float
  pub valb : ℕ

module _ (fl : Floating) where
  open fl use {Float, Double, add, div, of_int, widen, narrow, minus}

  -- The inner loop: `n` points from `j` on. `beyond j` is what memory holds at place `j` of the array
  -- where it has no such point.
  unfoldable pub sum_from : (ℕ → Float) → List Float → ℕ → ℕ → Double → Double
  sum_from beyond a j zero sum = sum
  sum_from beyond a j (suc n) sum =
      sum_from beyond a (suc j) n (add sum (widen (get_or a j (beyond j))))

  -- One pass of the outer loop. The number of points is an int.
  unfoldable pub average_at : (ℕ → Float) → List Float → ℕ → ℕ → Float
  unfolding range sum_from
  average_at beyond a window i =
      let g = range window (length a) i in
      let n =
        if leb (g.left + g.below) g.stop
        then of_int (g.stop - g.below - g.left)
        else minus (of_int (g.left + g.below - g.stop)) in
      narrow (div (sum_from beyond a g.left (g.stop - g.below - g.left) (fl.literal "0.0")) n)

  unfoldable pub averages : (ℕ → Float) → List Float → ℕ → ℕ → ℕ → List Float
  unfolding average_at
  averages beyond a window i zero = []
  averages beyond a window i (suc n) =
      average_at beyond a window i ∷ averages beyond a window (suc i) n

  -- `subArrayMovingAverage` on the inputs A and B, B as its 32 bits, and what VALA holds. A window below
  -- 0 is rounded towards 0. It is nothing where the int `i + window` overflows at the last place.
  unfoldable pub moving_average :
      (ℕ → Float) → List Float → ℕ → List Float → Option (Averaged Float)
  unfolding averages
  moving_average beyond a b vala =
      let negative = leb (2 ^ 31) b in
      let window = if negative then (2 ^ 32 - b) / 2 else b / 2 in
      let real = if negative then (2 ^ 64 + 1 - window * 2) % 2 ^ 64 else window * 2 + 1 in
      let kept : Averaged Float = record { vala = vala; valb = real } in
      let averaged : Averaged Float = record {
        vala = averages beyond a window 0 (length a);
        valb = real;
      } in
      let same : Averaged Float = record { vala = a; valb = real } in
      if negative && not (window == 0)
      then some kept
      else if not (length a == length vala)
      then some kept
      else if window == 0
      then some same
      else if ltb (2 ^ 31) (length a + window)
      then none
      else some averaged
