-- ===== src/Table/Transient.antt =====
-- `calcTransientTable` of pscApp/src/psctbl.cpp: the table that leads from an old table to a new one.
use pscdrv.Common.{
  ℕ, zero, suc, List, [], ◌∷◌, ◌++◌, length, take, get_or, ltb, if◌then◌else◌, ◌+◌, ◌-◌,
}
use pscdrv.Floating.{Floating}
use pscdrv.Table.{Controller}

module _ (fl : Floating) where
  open fl use {Float, Double, add, mul, pow, of_int, widen}

  -- The rows of `a_data`. x0 and x1 are ints.
  abbrev pub value_row : ℕ → List Double
  value_row x =
      pow (of_int x) 5
      ∷ pow (of_int x) 4
      ∷ pow (of_int x) 3
      ∷ pow (of_int x) 2
      ∷ of_int x
      ∷ of_int 1
      ∷ []

  abbrev slope_row : ℕ → List Double
  slope_row x =
      mul (of_int 5) (pow (of_int x) 4)
      ∷ mul (of_int 4) (pow (of_int x) 3)
      ∷ mul (of_int 3) (pow (of_int x) 2)
      ∷ mul (of_int 2) (of_int x)
      ∷ of_int 1
      ∷ of_int 0
      ∷ []

  abbrev bend_row : ℕ → List Double
  bend_row x =
      mul (of_int 20) (pow (of_int x) 3)
      ∷ mul (of_int 12) (pow (of_int x) 2)
      ∷ mul (of_int 6) (of_int x)
      ∷ of_int 2
      ∷ of_int 0
      ∷ of_int 0
      ∷ []

  unfoldable pub a_data : ℕ → ℕ → List (List Double)
  a_data x0 x1 =
      value_row x0 ∷ slope_row x0 ∷ bend_row x0 ∷ bend_row x1 ∷ slope_row x1 ∷ value_row x1 ∷ []

  -- The polynomial that the loop computes, with the coefficients in `s`, at `i`.
  unfoldable pub polynomial : List Double → ℕ → Double
  polynomial s i =
      let at = λ (k : ℕ). get_or s k (of_int 0) in
      add
        (add
          (add
            (add (add (mul (at 0) (pow (of_int i) 5)) (mul (at 1) (pow (of_int i) 4)))
              (mul (at 2) (pow (of_int i) 3)))
            (mul (at 3) (pow (of_int i) 2)))
          (mul (at 4) (of_int i)))
        (at 5)

  -- The loop from `i` on, for `n` points.
  unfoldable pub transient_points : List Double → ℕ → ℕ → List Float
  unfolding polynomial
  transient_points s i zero = []
  transient_points s i (suc n) = fl.narrow (polynomial s i) ∷ transient_points s (suc i) n

  -- `calcTransientTable`. `solve` is the LU decomposition and solution of the library; `beyond i` is
  -- what memory holds at place `i` of the old table, where that has no such point, and `behind` the
  -- same for the new table. The tables have the same length.
  unfoldable pub calc_transient_table :
      (List (List Double) → List Double → List Double)
      → (ℕ → Float)
      → (ℕ → Float)
      → Controller Float
      → Controller Float
  unfolding a_data transient_points
  calc_transient_table solve beyond behind t =
      let x0 = t.start_point in
      let x1 = length t.next_tr in
      let old = λ (i : ℕ). get_or t.prev_tg i (beyond i) in
      let new = λ (i : ℕ). get_or t.next_tg i (behind i) in
      let r0 = fl.sub (old (x0 + 1)) (old x0) in
      let r1 = fl.sub (new 1) (new 0) in
      let b_data =
        widen (old x0) ∷ widen r0 ∷ of_int 0 ∷ of_int 0 ∷ widen r1 ∷ widen (new 0) ∷ [] in
      if ltb x1 x0 then t else record t {
        next_tr = take x0 t.prev_tg ++ transient_points (solve (a_data x0 x1) b_data) x0 (x1 - x0);
      }
