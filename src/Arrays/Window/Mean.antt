-- ===== src/Arrays/Window/Mean.antt =====
-- What the moving average is the mean of.
use pscdrv.Common.{
  ℕ, zero, suc, List, [], ◌∷◌, length, get_or, drop-get_or, true, false, some, ltb, take, drop, leb,
  ◌==◌, ◌+◌, ◌-◌, ◌*◌, ◌/◌, ◌^◌, ◌≡◌, refl, ap, ◌∙◌, ◌<◌, ◌≤◌, min, arith,
}
use pscdrv.Floating.{Floating}
use pscdrv.Arrays.Window.{range, sum_from, average_at, averages, moving_average, Averaged}

-- The radius of the window at place `i` of `count`: it shrinks near the ends.
abbrev pub radius : ℕ → ℕ → ℕ → ℕ
radius window count i = min window (min i (count - 1 - i))

-- A window that is shorter than the array stays inside it, symmetrical around its place.
range-radius :
    (window count i : ℕ)
    → 2 * window < count
    → i < count
    → let g = range window count i in
      let m = radius window count i in (g.left ≡ i - m) × (g.stop ≡ i + m + 1 + g.below)
unfolding range
range-radius window count i h k = (ground arith, ground arith)

module _ (fl : Floating) where
  open fl use {Float, Double, add, div, of_int, widen, narrow, minus}

  -- The points of a list added up from left to right.
  abbrev pub total : Double → List Float → Double
  total sum [] = sum
  total sum (x ∷ xs) = total (add sum (widen x)) xs

  sum_from-total :
      (beyond : ℕ → Float) (a : List Float) (j n : ℕ) (sum : Double)
      → j + n ≤ length a
      → sum_from fl beyond a j n sum ≡ total sum (take n (drop j a))
  unfolding sum_from
  sum_from-total beyond a j zero sum h = refl
  sum_from-total beyond a j (suc n) sum h =
      rw (drop-get_or j a (beyond j) (omega arith))
        (sum_from-total beyond a (suc j) n (add sum (widen (get_or a j (beyond j)))) (omega arith))

  get_or-averages :
      (beyond : ℕ → Float) (a : List Float) (window i n k : ℕ) (d : Float)
      → k < n
      → get_or (averages fl beyond a window i n) k d ≡ average_at fl beyond a window (i + k)
  unfolding averages
  get_or-averages beyond a window i zero k d h = absurd (omega arith)
  get_or-averages beyond a window i (suc n) zero d h = let e : i + 0 ≡ i = omega arith in rw e refl
  get_or-averages beyond a window i (suc n) (suc k) d h =
      let e : i + suc k ≡ suc i + k = omega arith in
      rw e (get_or-averages beyond a window (suc i) n k d (omega arith))

  average_at-total :
      (beyond : ℕ → Float) (a : List Float) (window i : ℕ)
      → 2 * window < length a
      → i < length a
      → let m = radius window (length a) i in
        average_at fl beyond a window i
        ≡ narrow (
            div (total (fl.literal "0.0") (take (2 * m + 1) (drop (i - m) a))) (of_int (2 * m + 1)))
  unfolding average_at
  average_at-total beyond a window i h k =
      let m = radius window (length a) i in
      let g = range window (length a) i in
      let (l, s) = range-radius window (length a) i h k in
      let n : g.stop - g.below - g.left ≡ 2 * m + 1 = omega (arith, l, s) in
      let order : leb (g.left + g.below) g.stop ≡ true = ground (arith, l, s) in
      rw (average_at, order, n, l)
        (ap (λ t. narrow (div t (of_int (2 * m + 1))))
          (sum_from-total beyond a (i - m) (2 * m + 1) (fl.literal "0.0") (omega arith)))

  -- With a window of at least 2 that is shorter than the array, at most 2 ^ 31 elements and half a window
  -- together, and as
  -- many places in VALA as in A, each place of VALA is the mean of the points of A around it, added up
  -- from the first to the last: half the window to each side, or as far as the nearer end of the
  -- array where that is less. VALB is the number of points of a whole window.
  pub moving_average-total :
      (beyond : ℕ → Float) (a vala : List Float) (b i : ℕ) (d : Float)
      → 2 ≤ b
      → b < length a
      → length a + b / 2 ≤ 2 ^ 31
      → length vala ≡ length a
      → i < length a
      → let m = radius (b / 2) (length a) i in
        (out : Averaged Float) × (moving_average fl beyond a b vala ≡ some out)
        × (get_or out.vala i d
            ≡ narrow (
                div
                  (total (fl.literal "0.0") (take (2 * m + 1) (drop (i - m) a)))
                  (of_int (2 * m + 1))))
        × (out.valb ≡ 2 * (b / 2) + 1)
  unfolding moving_average
  moving_average-total beyond a vala b i d small short fits same k =
      let positive : leb (2 ^ 31) b ≡ false = ground arith in
      let whole : (length a == length vala) ≡ true = ground arith in
      let wide : (b / 2 == 0) ≡ false = ground arith in
      let z : 0 + i ≡ i = omega arith in
      let e : b / 2 * 2 + 1 ≡ 2 * (b / 2) + 1 = omega arith in
      let inside : ltb (2 ^ 31) (length a + b / 2) ≡ false = ground arith in
      (
        record { vala = averages fl beyond a (b / 2) 0 (length a); valb = b / 2 * 2 + 1 },
        rw (positive, whole, wide, inside) refl,
        (get_or-averages beyond a (b / 2) 0 (length a) i d k
            ∙ ap (average_at fl beyond a (b / 2)) z
            ∙ average_at-total beyond a (b / 2) i (omega arith) k),
        e,
      )
