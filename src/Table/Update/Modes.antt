-- ===== src/Table/Update/Modes.antt =====
-- The modes of an update of the table.
use pscdrv.Common.{
  ℕ, List, [], ◌∷◌, ◌++◌, length, Bool, true, false, ◌≡◌, ◌≢◌, refl, inl, inr, arith, Bool-cases,
  sym, subst, ◌<◌, ◌+◌, ◌^◌, ◌==◌, ==_iff,
}
use pscdrv.Psc.State.{Env, Session}
use pscdrv.Floating.{Floating}
use pscdrv.Table.{Controller}
use pscdrv.Table.Ramp.{
  Verdict, fine, out_of_range, too_steep, too_bent, steep_at_close, bent_at_end, bent_at_begin,
  overrun, is_positive, is_negative, check_points, check_ramp_function,
}
use pscdrv.Table.Update.{
  Tables, Updated, overran, Room, send_target, send_both, by_mode, give_up, decline,
  transient_table_wrong,
}
use pscdrv.Table.Update.Sent.{
  IsReady, table_message, Delivered, send_target-Delivered, send_both-Delivered, sent-append,
  sent-nil,
}
use pscdrv.Table.Update.After.{
  IsInside, AtJoin, step_verdict, IsPlan, AfterUpdate, Delivered-AfterUpdate,
}

-- The tests of the code find where a check stopped.
is_positive-IsInside : (v : Verdict) → is_positive v ≡ true → IsInside v
is_positive-IsInside fine e = cc
is_positive-IsInside out_of_range e = tt
is_positive-IsInside too_steep e = tt
is_positive-IsInside too_bent e = tt
is_positive-IsInside steep_at_close e = cc
is_positive-IsInside bent_at_end e = cc
is_positive-IsInside bent_at_begin e = cc
is_positive-IsInside overrun e = cc

IsInside-is_positive : (v : Verdict) → is_positive v ≡ false → ¬ IsInside v
IsInside-is_positive fine e h = h
IsInside-is_positive out_of_range e h = cc
IsInside-is_positive too_steep e h = cc
IsInside-is_positive too_bent e h = cc
IsInside-is_positive steep_at_close e h = h
IsInside-is_positive bent_at_end e h = h
IsInside-is_positive bent_at_begin e h = h
IsInside-is_positive overrun e h = h

is_negative-AtJoin : (v : Verdict) → is_negative v ≡ true → AtJoin v
is_negative-AtJoin fine e = cc
is_negative-AtJoin out_of_range e = cc
is_negative-AtJoin too_steep e = cc
is_negative-AtJoin too_bent e = cc
is_negative-AtJoin steep_at_close e = tt
is_negative-AtJoin bent_at_end e = tt
is_negative-AtJoin bent_at_begin e = tt
is_negative-AtJoin overrun e = cc

AtJoin-is_negative : (v : Verdict) → is_negative v ≡ false → ¬ AtJoin v
AtJoin-is_negative fine e h = h
AtJoin-is_negative out_of_range e h = h
AtJoin-is_negative too_steep e h = h
AtJoin-is_negative too_bent e h = h
AtJoin-is_negative steep_at_close e h = cc
AtJoin-is_negative bent_at_end e h = cc
AtJoin-is_negative bent_at_begin e h = cc
AtJoin-is_negative overrun e h = h

module _ (fl : Floating) (unipolar : Bool) (max_delta1 max_delta2 : fl.Float) where
  open fl use {Float}

  check_points_bounded :
      (xs : List Float) → check_points fl unipolar max_delta1 max_delta2 xs ≢ overrun
  unfolding check_points
  check_points_bounded [] e = ground arith
  check_points_bounded (x0 ∷ []) e = ground arith
  check_points_bounded (x0 ∷ x1 ∷ []) e = ground arith
  check_points_bounded (x0 ∷ x1 ∷ x2 ∷ []) e = ground (arith, check_points_bounded (x1 ∷ x2 ∷ []))
  check_points_bounded (x0 ∷ x1 ∷ x2 ∷ x3 ∷ []) e =
      ground (arith, check_points_bounded (x1 ∷ x2 ∷ x3 ∷ []))
  check_points_bounded (x0 ∷ x1 ∷ x2 ∷ x3 ∷ x4 ∷ xs) e =
      ground (arith, check_points_bounded (x1 ∷ x2 ∷ x3 ∷ x4 ∷ xs))

  -- Only a table of fewer than two points is read beyond its end.
  pub check_ramp_function_short :
      (v1 v2 : List Float)
      → check_ramp_function fl unipolar max_delta1 max_delta2 v1 v2 ≡ overrun
      → length v2 < 2
  unfolding check_ramp_function
  check_ramp_function_short v1 [] e = ground arith
  check_ramp_function_short v1 (y0 ∷ []) e = ground arith
  check_ramp_function_short v1 (y0 ∷ y1 ∷ v2) e =
      absurd (check_points_bounded (v1 ++ (y0 ∷ y1 ∷ [])) e)

above : (n : ℕ) → (n == 0) ≡ false → (n == 1) ≡ false → 1 < n
above n h k = ground arith

module _ (fl : Floating) (env : Env) (junk : ℕ) (unipolar short : Bool) (σ : Session)
    (first second : Room) (solve : List (List fl.Double) → List fl.Double → List fl.Double)
    (beyond behind : ℕ → fl.Float) where
  open fl use {Float}

  by_check-AfterUpdate :
      (t : Controller Float) (table : List Float) (s : Tables Float) (c : Verdict)
      → t.bid < 2 ^ 16
      → t.curmode ≡ 1
      → AtJoin (step_verdict fl unipolar t)
      → length table ≡ length t.next_tg
      → check_ramp_function fl unipolar t.max_delta1 t.max_delta2 table t.next_tg ≡ c
      → IsReady σ s.tx
      → AfterUpdate fl env.host unipolar short σ t table (elim c [
        | fine ↦
            send_both fl env junk unipolar first second
              (record s { control = record t { next_tr = table } })
        | overrun ↦ overran
        | _ ↦
            give_up fl
              (decline + transient_table_wrong)
              (record s { control = record t { next_tr = table } })
      ])
  by_check-AfterUpdate t table s fine h mode j l e ready =
      let a = table_message fl env.host unipolar 2 t.bid table in
      let b = table_message fl env.host unipolar 1 t.bid t.next_tg in
      Delivered-AfterUpdate fl env.host unipolar short σ (a ∷ b ∷ []) t table _
        (inr (inr (inl (mode, j, e, refl, refl))))
        (subst
          (λ τ. Delivered fl τ t (
            send_both fl env junk unipolar first second
              (record s { control = record t { next_tr = table } })))
          (sent-append σ (a ∷ []) (b ∷ []))
          (send_both-Delivered fl env junk unipolar σ first second
            (record s { control = record t { next_tr = table } }) h l ready))
  by_check-AfterUpdate t table s overrun h mode j l e ready =
      inl (check_ramp_function_short fl unipolar t.max_delta1 t.max_delta2 table t.next_tg e)
  by_check-AfterUpdate t table s out_of_range h mode j l e ready =
      (ready, inr (inr (inr (refl, mode, j, λ x. ground arith))))
  by_check-AfterUpdate t table s too_steep h mode j l e ready =
      (ready, inr (inr (inr (refl, mode, j, λ x. ground arith))))
  by_check-AfterUpdate t table s too_bent h mode j l e ready =
      (ready, inr (inr (inr (refl, mode, j, λ x. ground arith))))
  by_check-AfterUpdate t table s steep_at_close h mode j l e ready =
      (ready, inr (inr (inr (refl, mode, j, λ x. ground arith))))
  by_check-AfterUpdate t table s bent_at_end h mode j l e ready =
      (ready, inr (inr (inr (refl, mode, j, λ x. ground arith))))
  by_check-AfterUpdate t table s bent_at_begin h mode j l e ready =
      (ready, inr (inr (inr (refl, mode, j, λ x. ground arith))))

  -- The branch of the second check in mode 1.
  abbrev by_check : Controller Float → Tables Float → Updated (Tables Float)
  by_check u s =
      elim (check_ramp_function fl unipolar s.control.max_delta1 s.control.max_delta2 u.next_tr
        u.next_tg) [
          | fine ↦ send_both fl env junk unipolar first second (record s { control = u })
          | overrun ↦ overran
          | _ ↦ give_up fl (decline + transient_table_wrong) (record s { control = u })
        ]

  pub by_mode-AfterUpdate :
      (transient : Controller Float → Controller Float) (table : List Float) (s : Tables Float)
      → s.control.bid < 2 ^ 16
      → transient s.control ≡ record s.control { next_tr = table }
      → length table ≡ length s.control.next_tg
      → IsReady σ s.tx
      → AfterUpdate fl env.host unipolar short σ s.control table (
          by_mode fl env junk unipolar transient first second
            (step_verdict fl unipolar s.control)
            s)
  unfolding by_mode
  by_mode-AfterUpdate transient table s h e l ready =
      let t = s.control in
      let res = step_verdict fl unipolar t in
      let mode_of = λ (k : ℕ). ==_iff t.curmode k in
      let plain : IsPlan fl env.host unipolar t table
            (table_message fl env.host unipolar 0 t.bid t.next_tg ∷ []) t.next_tg
          → AfterUpdate fl env.host unipolar short σ t table
              (send_target fl env junk unipolar first 0 s) =
        λ k.
          Delivered-AfterUpdate fl env.host unipolar short σ
            (table_message fl env.host unipolar 0 t.bid t.next_tg ∷ []) t table _ k
            (send_target-Delivered fl env junk unipolar σ first 0 s h ready) in
      elim (Bool-cases (t.curmode == 0)) [
        | inl zeroth ↦ elim (Bool-cases (is_positive res)) [
          | inl bad ↦
              rw (zeroth, bad)
                (
                  ready,
                  inr (
                      inr (
                        inl (
                          refl,
                          omega (arith, (mode_of 0).0 zeroth),
                          is_positive-IsInside res bad,
                        ))),
                )
          | inr good ↦
              rw (zeroth, good)
                (plain (inl ((mode_of 0).0 zeroth, IsInside-is_positive res good, refl, refl)))
        ]
        | inr other ↦ elim (Bool-cases (t.curmode == 1)) [
          | inr manual ↦
              rw (other, manual)
                (
                  [],
                  subst (λ τ. IsReady τ s.tx) (sent-nil σ) ready,
                  inr (inr (inr (above t.curmode other manual, refl, refl))),
                )
          | inl auto ↦ elim (Bool-cases (is_negative res)) [
            | inl gap ↦
                rw (other, auto, gap)
                  (subst (λ u. AfterUpdate fl env.host unipolar short σ t table (by_check u s))
                    (sym e)
                    (by_check-AfterUpdate t table s _ h ((mode_of 1).0 auto)
                      (is_negative-AtJoin res gap) l refl ready))
            | inr near ↦ elim (Bool-cases (is_positive res)) [
              | inl bad ↦
                  rw (other, auto, near, bad)
                    (
                      ready,
                      inr (
                          inr (
                            inl (
                              refl,
                              omega (arith, (mode_of 1).0 auto),
                              is_positive-IsInside res bad,
                            ))),
                    )
              | inr good ↦
                  rw (other, auto, near, good)
                    (plain (
                      inr (
                        inl (
                          (mode_of 1).0 auto,
                          IsInside-is_positive res good,
                          AtJoin-is_negative res near,
                          refl,
                          refl,
                        ))))
            ]
          ]
        ]
      ]
