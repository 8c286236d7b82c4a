-- ===== src/Beam/Positions/Bounds.antt =====
-- What the subroutines of pscApp/src/bpm_aSubUtils.c read, and what they leave in their outputs.
use pscdrv.Common.{
  ℕ, zero, suc, List, [], ◌∷◌, ◌++◌, length, take, drop, Bool, true, ◌&&◌, some, map, leb, ◌-◌, ◌≤◌,
  ◌<◌, ◌≡◌, refl, arith, ◌∙◌, ap, overwrite, take-append_ge, length-take, length-overwrite,
}
use pscdrv.Floating.{Floating}
use pscdrv.Beam.Positions.{
  get_elem?, filled, copied, nm_to_mm, Statics, unit_conversion, clamped, between, integrals,
  psd_integrals,
}

module _ (fl : Floating) where
  open fl use {Float}

  get_elem?-below :
      (xs : List Float) (i : ℕ) → i < length xs → (x : Float) × (get_elem? xs i ≡ some x)
  get_elem?-below [] i h = absurd (omega arith)
  get_elem?-below (x ∷ xs) zero h = (x, refl)
  get_elem?-below (x ∷ xs) (suc i) h = get_elem?-below xs i (omega arith)

  between-below :
      (xs : List Float) (i j : ℕ)
      → i < length xs
      → j < length xs
      → (x : Float) × (between fl xs i j ≡ some x)
  unfolding between
  between-below xs i j h k =
      let (x, e) = get_elem?-below xs i h in
      let (y, f) = get_elem?-below xs j k in (fl.sub y x, rw (e, f) refl)

  clamped_bound : (negative : Bool) (f : ℕ) → clamped fl negative f < 5000
  clamped_bound negative f = ground arith

  integrals_total :
      (xs : List Float) (f1 f2 : ℕ)
      → 5000 ≤ length xs
      → f1 < 5000
      → f2 < 5000
      → (r : List Float) × (integrals fl xs f1 f2 ≡ some r)
  unfolding integrals
  integrals_total xs f1 f2 h k l =
      let (a, ea) = between-below xs 1 60 (omega arith) (omega arith) in
      let (b, eb) = between-below xs 1 120 (omega arith) (omega arith) in
      let (c, ec) = between-below xs 1 500 (omega arith) (omega arith) in
      let (d, ed) = between-below xs 1 4999 (omega arith) (omega arith) in
      let (e, ee) = between-below xs f1 f2 (omega arith) (omega arith) in
      (a ∷ b ∷ c ∷ d ∷ e ∷ [], rw (ea, eb, ec, ed, ee) refl)

  -- Whatever places a user gives, the integrals of a spectrum read nothing beyond arrays of 5000
  -- elements, where there are two frequencies.
  pub psd_integrals_total :
      (a b c : List Float) (user1 user2 : Bool × ℕ)
      → 5000 ≤ length a
      → 5000 ≤ length b
      → 2 ≤ length c
      → (x y : List Float) × (psd_integrals fl a b c user1 user2 ≡ some (x, y))
  unfolding psd_integrals
  psd_integrals_total a b c (n1, f1) (n2, f2) h k l =
      let (hz, e) = get_elem?-below c 1 (omega arith) in
      let (x, f) =
        integrals_total a (clamped fl n1 f1) (clamped fl n2 f2) h (clamped_bound n1 f1)
          (clamped_bound n2 f2) in
      let (y, g) =
        integrals_total b (clamped fl n1 f1) (clamped fl n2 f2) k (clamped_bound n1 f1)
          (clamped_bound n2 f2) in
      (x, y, rw (e, f, g) refl)

  overwrite-append :
      (new old : List Float)
      → length new ≤ length old
      → overwrite new old ≡ new ++ drop (length new) old
  overwrite-append [] old h = refl
  overwrite-append (x ∷ new) [] h = absurd (omega arith)
  overwrite-append (x ∷ new) (y ∷ old) h = ap (◌∷◌ x) (overwrite-append new old (omega arith))

  length-map : (f : Float → Float) (xs : List Float) → length (map f xs) ≡ length xs
  length-map f [] = refl
  length-map f (x ∷ xs) = ap suc (length-map f xs)

  -- The new values, and the old ones of the static array behind them.
  abbrev pub left_over : ℕ → ℕ → List Float → List Float → List Float
  left_over n noa xs old = map (nm_to_mm fl) (take n xs) ++ take (noa - n) (drop n old)

  module _ (n noa : ℕ) (xs old : List Float) (few : n ≤ noa) (all : noa ≡ length xs)
      (room : noa ≤ length old) where
    length-new : length (map (nm_to_mm fl) (take n xs)) ≡ n
    length-new = omega (arith, length-map (nm_to_mm fl) (take n xs), length-take n xs)

    filled-some :
        filled (nm_to_mm fl) n xs old ≡ some (overwrite (map (nm_to_mm fl) (take n xs)) old)
    filled-some =
        let fits : (leb n (length xs) && leb n (length old)) ≡ true = ground arith in rw fits refl

    copied-some :
        copied noa (overwrite (map (nm_to_mm fl) (take n xs)) old) ≡ some (left_over n noa xs old)
    copied-some =
        let new = map (nm_to_mm fl) (take n xs) in
        let large : leb noa (length (overwrite new old)) ≡ true =
          ground (arith, length-overwrite new old) in
        rw large (
          ap some (
            ap (take noa) (overwrite-append new old (omega (arith, length-new)))
            ∙ take-append_ge noa new (drop (length new) old) (omega (arith, length-new))
            ∙ ap (λ i. new ++ take (noa - i) (drop i old)) length-new))

  -- The conversion of the first `n` points of two arrays of the same size, where the static arrays
  -- have room: each output is these points in mm, and behind them, up to the size of the arrays, what
  -- the static array has had from before, from whichever record used the subroutine.
  pub unit_conversion-left_over :
      (n : ℕ) (a b : List Float) (s : Statics fl)
      → n ≤ length a
      → length a ≡ length b
      → length a ≤ length s.xs
      → length a ≤ length s.ys
      → (s' : Statics fl) × (unit_conversion fl 0 n a b s
          ≡ some (s', left_over n (length a) a s.xs, left_over n (length a) b s.ys))
  unfolding unit_conversion
  unit_conversion-left_over n a b s few same room_x room_y = (
    record {
      xs = overwrite (map (nm_to_mm fl) (take n a)) s.xs;
      ys = overwrite (map (nm_to_mm fl) (take n b)) s.ys;
    },
    rw
        (
          filled-some n (length a) a s.xs few refl room_x,
          filled-some n (length a) b s.ys few same room_y,
          copied-some n (length a) a s.xs few refl room_x,
          copied-some n (length a) b s.ys few same room_y,
        )
        refl,
  )
