-- ===== src/Table/Update/After.antt =====
-- How an update of the table ends.
use pscdrv.Common.{
  ℕ, true, zero, suc, List, [], ◌∷◌, length, Bool, none, some, ◌≡◌, ◌≢◌, refl, ◌⊎◌, ◌+◌, inl, inr,
  arith, Bool-cases, ap, ◌<◌, ltb, length-append, length-take,
}
use pscdrv.Wire.{Endian}
use pscdrv.Recv.Frames.{Message}
use pscdrv.Psc.State.{Session}
use pscdrv.Dev.Link.{success, bad_request, no_private, no_convert}
use pscdrv.Floating.{Floating}
use pscdrv.Table.{Controller}
use pscdrv.Table.Ramp.{
  Verdict, fine, out_of_range, too_steep, too_bent, steep_at_close, bent_at_end, bent_at_begin,
  overrun, check_ramp_function,
}
use pscdrv.Table.Pack.{max_psc_point_count}
use pscdrv.Table.Transient.{calc_transient_table, transient_points}
use pscdrv.Table.Update.{
  Tables, Updated, ended, crashed, overran, decline, cant_send, target_table_wrong,
  transient_table_wrong, unexplainable,
}
use pscdrv.Table.Update.Sent.{IsReady, sent, table_message, Delivered}

-- The return values of a check above 0, for a point out of range or a step or bend inside the first
-- table, and below 0, for a step or bend at the join of the two tables.
abbrev pub IsInside : Verdict → Type 0
IsInside out_of_range = Unit
IsInside too_steep = Unit
IsInside too_bent = Unit
IsInside fine = ⊥
IsInside steep_at_close = ⊥
IsInside bent_at_end = ⊥
IsInside bent_at_begin = ⊥
IsInside overrun = ⊥

abbrev pub AtJoin : Verdict → Type 0
AtJoin steep_at_close = Unit
AtJoin bent_at_end = Unit
AtJoin bent_at_begin = Unit
AtJoin fine = ⊥
AtJoin out_of_range = ⊥
AtJoin too_steep = ⊥
AtJoin too_bent = ⊥
AtJoin overrun = ⊥

module _ (fl : Floating) where
  open fl use {Float, Double}

  length-transient_points : (s : List Double) (i n : ℕ) → length (transient_points fl s i n) ≡ n
  unfolding transient_points
  length-transient_points s i zero = refl
  length-transient_points s i (suc n) = ap suc (length-transient_points s (suc i) n)

  -- The transient table keeps its length, wherever it starts.
  pub length-calc_transient_table :
      (solve : List (List Double) → List Double → List Double) (beyond behind : ℕ → Float)
      (t : Controller Float)
      → length t.prev_tg ≡ length t.next_tr
      → length (calc_transient_table fl solve beyond behind t).next_tr ≡ length t.next_tr
  unfolding calc_transient_table
  length-calc_transient_table solve beyond behind t h =
      elim (Bool-cases (ltb (length t.next_tr) t.start_point)) [
        | inl past ↦ rw past refl
        | inr within ↦
            rw (within, length-append, length-take, length-transient_points) (ground arith)
      ]

  pub calc_transient_table-next_tr :
      (solve : List (List Double) → List Double → List Double) (beyond behind : ℕ → Float)
      (t : Controller Float)
      → calc_transient_table fl solve beyond behind t
        ≡ record t { next_tr = (calc_transient_table fl solve beyond behind t).next_tr }
  unfolding calc_transient_table
  calc_transient_table-next_tr solve beyond behind t =
      elim (Bool-cases (ltb (length t.next_tr) t.start_point)) [
        | inl past ↦ rw past refl
        | inr within ↦ rw within refl
      ]

  -- The check of the table against itself, and of the table before it against it.
  abbrev pub own_verdict : Bool → Controller Float → Verdict
  own_verdict unipolar t =
      check_ramp_function fl unipolar t.max_delta1 t.max_delta2 t.next_tg t.next_tg

  abbrev pub step_verdict : Bool → Controller Float → Verdict
  step_verdict unipolar t =
      check_ramp_function fl unipolar t.max_delta1 t.max_delta2 t.prev_tg t.next_tg

  -- What an update without an alarm has sent, where `t` is the controller with the tables in place
  -- and `transient` the transient table. In mode 0 the table goes out unless the check of the step to
  -- it returns a number above 0; in mode 1 it goes out alone where the step to it is a ramp too, and behind the
  -- transient table where only the step is not, and the transient table with its step to the table is;
  -- in other modes nothing goes out. After the table is sent it is the table before the next one.
  abbrev pub IsPlan :
      Endian → Bool → Controller Float → List Float → List Message → List Float → Type 0
  IsPlan host unipolar t transient ms prev =
      let target = λ (mode : ℕ). table_message fl host unipolar mode t.bid t.next_tg in
      ((t.curmode ≡ 0)
        × (¬ IsInside (step_verdict unipolar t))
        × (ms ≡ target 0 ∷ [])
        × (prev ≡ t.next_tg))
      ⊎ ((t.curmode ≡ 1)
          × (¬ IsInside (step_verdict unipolar t))
          × (¬ AtJoin (step_verdict unipolar t))
          × (ms ≡ target 0 ∷ [])
          × (prev ≡ t.next_tg))
      ⊎ ((t.curmode ≡ 1)
          × AtJoin (step_verdict unipolar t)
          × (check_ramp_function fl unipolar t.max_delta1 t.max_delta2 transient t.next_tg ≡ fine)
          × (ms ≡ table_message fl host unipolar 2 t.bid transient ∷ target 1 ∷ [])
          × (prev ≡ t.next_tg))
      ⊎ ((1 < t.curmode) × (ms ≡ []) × (prev ≡ t.prev_tg))

  -- Why an update has sent nothing, with the bits that it raises: the status message is short, the
  -- table is no ramp, the table before it is none, or the step is not and the transient table either.
  abbrev pub IsRefusal : Bool → Bool → Controller Float → List Float → ℕ → Type 0
  IsRefusal unipolar short t transient bits =
      ((bits ≡ t.alarm_bits + (decline + cant_send)) × (short ≡ true))
      ⊎ ((bits ≡ t.alarm_bits + (decline + target_table_wrong)) × (own_verdict unipolar t ≢ fine))
      ⊎ ((bits ≡ t.alarm_bits + (decline + unexplainable))
          × (t.curmode < 2)
          × IsInside (step_verdict unipolar t))
      ⊎ ((bits ≡ t.alarm_bits + (decline + transient_table_wrong))
          × (t.curmode ≡ 1)
          × AtJoin (step_verdict unipolar t)
          × (check_ramp_function fl unipolar t.max_delta1 t.max_delta2 transient t.next_tg ≢ fine))

  -- How an update ends: without an alarm; with an alarm and nothing sent; with an exception, which is
  -- made an alarm; or beyond the bounds of a table.
  abbrev pub AfterUpdate :
      Endian
      → Bool
      → Bool
      → Session
      → Controller Float
      → List Float
      → Updated (Tables Float)
      → Type 0
  AfterUpdate host unipolar short σ t transient (ended success none s) =
      (ms : List Message) × IsReady (sent σ ms) s.tx
      × IsPlan host unipolar t transient ms s.control.prev_tg
  AfterUpdate host unipolar short σ t transient (ended success (some _) s) =
      IsReady σ s.tx × IsRefusal unipolar short t transient s.control.alarm_bits
  AfterUpdate host unipolar short σ t transient (ended _ none s) = ⊥
  AfterUpdate host unipolar short σ t transient (ended _ (some _) s) = s.control.prev_tg ≡ t.prev_tg
  AfterUpdate host unipolar short σ t transient crashed = ⊥
  AfterUpdate host unipolar short σ t transient overran =
      (length t.next_tg < 2) ⊎ (max_psc_point_count < length t.next_tg)

  pub Delivered-AfterUpdate :
      (host : Endian) (unipolar short : Bool) (σ : Session) (ms : List Message)
      (t : Controller Float) (transient : List Float) (u : Updated (Tables Float))
      → IsPlan host unipolar t transient ms t.next_tg
      → Delivered fl (sent σ ms) t u
      → AfterUpdate host unipolar short σ t transient u
  Delivered-AfterUpdate host unipolar short σ ms t transient (ended success none s) plan
        (ready, e) =
      (ms, ready, rw e plan)
  Delivered-AfterUpdate host unipolar short σ ms t transient (ended success (some x) s) plan d =
      absurd d
  Delivered-AfterUpdate host unipolar short σ ms t transient (ended bad_request (some x) s) plan d =
      d
  Delivered-AfterUpdate host unipolar short σ ms t transient (ended no_private (some x) s) plan d =
      d
  Delivered-AfterUpdate host unipolar short σ ms t transient (ended no_convert (some x) s) plan d =
      d
  Delivered-AfterUpdate host unipolar short σ ms t transient (ended bad_request none s) plan d =
      absurd d
  Delivered-AfterUpdate host unipolar short σ ms t transient (ended no_private none s) plan d =
      absurd d
  Delivered-AfterUpdate host unipolar short σ ms t transient (ended no_convert none s) plan d =
      absurd d
  Delivered-AfterUpdate host unipolar short σ ms t transient crashed plan d = absurd d
  Delivered-AfterUpdate host unipolar short σ ms t transient overran plan d = inr d
