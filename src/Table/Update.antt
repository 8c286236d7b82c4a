-- ===== src/Table/Update.antt =====
-- `proc_update_target` of pscApp/src/psctbl.cpp: a new table is checked, and sent.
pub mod Sent
pub mod After
pub mod Modes
pub mod Whole
pub mod Accepted
use Prim.Native.Nat.{bit_and, bit_or}
use pscdrv.Common.{
  ℕ, List, [], ◌∷◌, ◌++◌, length, take, drop, resize, overwrite_at, Bool, true, false, not, Option,
  none, some, lookup, ltb, ◌==◌, if◌then◌else◌, ◌+◌, ◌^◌,
}
use pscdrv.Wire.{Endian, htonl, load}
use pscdrv.Block.{Block}
use pscdrv.Outcome.{
  Status, write_alarm, Severity, major_alarm, Error, Result, ok, threw, aborted, faulted, ◌>>=◌,
}
use pscdrv.Psc.State.{Env, Psc, get_recv}
use pscdrv.Psc.Send.{queue_send, flush_send}
use pscdrv.Dev.Link.{Code, success, bad_request, alarm_of}
use pscdrv.Floating.{Floating}
use pscdrv.Table.{Controller}
use pscdrv.Table.Ramp.{Verdict, fine, overrun, is_positive, is_negative, check_ramp_function}
use pscdrv.Table.Pack.{max_psc_point_count, sub10k_pack}
use pscdrv.Table.Transient.{calc_transient_table}

-- The bits of `alarmBits`.
abbrev pub decline : ℕ
decline = 2 ^ 0

abbrev pub cant_send : ℕ
cant_send = 2 ^ 1

abbrev pub target_table_wrong : ℕ
target_table_wrong = 2 ^ 2

abbrev pub transient_table_wrong : ℕ
transient_table_wrong = 2 ^ 3

abbrev pub transient_table_used : ℕ
transient_table_used = 2 ^ 4

abbrev pub unexplainable : ℕ
unexplainable = 2 ^ 5

-- The controller and its PSCs; `rx` is nothing where `rxpsc` is the same PSC as `psc`.
pub record Tables (Float : Type 0) : Type 0 where
  pub control : Controller Float
  pub tx : Psc
  pub rx : Option Psc

-- How the handler ends: with a status and the alarm that it raised, if any; it has used a null
-- pointer or failed an assertion; or it has read or written memory out of bounds.
pub data Updated (S : Type 0) : Type 0 where
  ended : Code → Option (Status × Severity) → S → Updated S
  crashed : Updated S
  overran : Updated S

-- `status_message_id` and `reg_polarity_offset`
abbrev pub status_message_id : ℕ
status_message_id = 64

abbrev pub reg_polarity_offset : ℕ
reg_polarity_offset = 40

-- What libevent answers to one message: whether it is queued, and whether it is moved.
pub record Room : Type 0 where
  pub fits : Bool
  pub moved : Bool

-- The register with the polarity, as the status message has it.
abbrev pub is_unipolar : Endian → Block → Bool
is_unipolar host b =
    let regval = htonl host (load host (take 4 (drop reg_polarity_offset b.data_bytes))) in
    not (bit_and regval 0x10000 == 0)

-- `queueSend` and `flushSend`.
unfoldable pub send_table : Env → ℕ → Room → ℕ → List ℕ → Psc → Result Psc
unfolding queue_send flush_send
send_table env junk room bid bytes p =
    queue_send env junk room.fits bid bytes p >>= flush_send env room.moved

module _ (fl : Floating) where
  open fl use {Float, Double}

  -- `getRecv` of the status message on `rxpsc`.
  abbrev pub with_status : ℕ → Tables Float → Tables Float
  with_status junk s = elim s.rx [
    | none ↦ record s { tx = get_recv junk status_message_id s.tx }
    | some p ↦ record s { rx = some (get_recv junk status_message_id p) }
  ]

  abbrev pub rxpsc : Tables Float → Psc
  rxpsc s = elim s.rx [ none ↦ s.tx | some p ↦ p ]

  -- Raises bits of `alarmBits`, none of which is up yet, requests the scan of the alarms, and returns
  -- with a major alarm.
  abbrev pub give_up : ℕ → Tables Float → Updated (Tables Float)
  give_up bits s =
      let t = s.control in
      ended success (some (write_alarm, major_alarm))
        (record s { control = record t { alarm_bits = t.alarm_bits + bits; scans = t.scans + 1 } })

  -- A packed table with its mode in place.
  unfoldable pub marked : Endian → Bool → ℕ → List Float → List ℕ
  unfolding sub10k_pack
  marked host unipolar mode table = overwrite_at 4 (mode ∷ []) (sub10k_pack fl host unipolar table)

  -- What follows a send: it goes on with the PSC, or the exception is made an alarm by `CATCH`.
  abbrev pub after_send :
      Tables Float → Result Psc → (Tables Float → Updated (Tables Float)) → Updated (Tables Float)
  after_send s (ok p) k = k (record s { tx = p })
  after_send s (threw e p) k = ended bad_request (some (alarm_of e)) (record s { tx = p })
  after_send s aborted k = crashed
  after_send s faulted k = crashed

  module _ (env : Env) (junk : ℕ) (unipolar : Bool) where
    -- The target table goes out last, and becomes the table before the next one.
    unfoldable pub send_target : Room → ℕ → Tables Float → Updated (Tables Float)
    unfolding send_table marked
    send_target room mode s =
        let t = s.control in
        if ltb max_psc_point_count (length t.next_tg)
        then overran
        else after_send s
            (send_table env junk room t.bid (marked env.host unipolar mode t.next_tg) s.tx)
            (λ s'.
              ended success none
                (record s' { control = record t { prev_tg = t.next_tg; scans = t.scans + 1 } }))

    -- With a transient table of as many points before it.
    unfoldable pub send_both : Room → Room → Tables Float → Updated (Tables Float)
    unfolding send_target
    send_both first second s =
        let t = s.control in
        let t' = record t { alarm_bits = t.alarm_bits + transient_table_used } in
        if ltb max_psc_point_count (length t.next_tg)
        then overran
        else after_send (record s { control = t' })
            (send_table env junk first t.bid (marked env.host unipolar 2 t.next_tr) s.tx)
            (send_target second 1)

    -- What is done with the table and the result of the second check, by mode.
    unfoldable pub by_mode :
        (Controller Float → Controller Float)
        → Room
        → Room
        → Verdict
        → Tables Float
        → Updated (Tables Float)
    unfolding send_both check_ramp_function
    by_mode transient first second res s =
        let t = s.control in
        let t' = transient t in
        let check =
          check_ramp_function fl unipolar t.max_delta1 t.max_delta2 t'.next_tr t'.next_tg in
        if t.curmode == 0
        then (if is_positive res
            then give_up (decline + unexplainable) s
            else send_target first 0 s)
        else if t.curmode == 1
        then (if is_negative res
            then (elim check [
              | fine ↦ send_both first second (record s { control = t' })
              | overrun ↦ overran
              | _ ↦ give_up (decline + transient_table_wrong) (record s { control = t' })
            ])
            else if is_positive res
            then give_up (decline + unexplainable) s
            else send_target first 0 s)
        else ended success none (record s { control = record t { scans = t.scans + 1 } })

  -- The controller with the tables of the record, of NORD elements, in place; `blank` is the float 0
  -- of `resize`.
  abbrev pub loaded : Float → List Float → Controller Float → Controller Float
  loaded blank elements t =
      let n = length elements in
      record t {
        next_tg = elements;
        prev_tg = resize n blank t.prev_tg;
        next_tr = resize n blank t.next_tr;
      }

  module _ (solve : List (List Double) → List Double → List Double) (beyond behind : ℕ → Float)
      (blank : Float) (env : Env) (junk : ℕ) (first second : Room) (elements : List Float) where
    -- The handler, once it has the block of the status message.
    unfoldable pub update_with : Block → Tables Float → Updated (Tables Float)
    unfolding by_mode calc_transient_table
    update_with b s =
        let t = s.control in
        let unipolar = is_unipolar env.host b in
        let u = loaded blank elements t in
        let check = λ (v : List Float).
          check_ramp_function fl unipolar t.max_delta1 t.max_delta2 v elements in
        if ltb (length b.data_bytes) (reg_polarity_offset + 4)
        then give_up (decline + cant_send) s
        else (elim (check elements) [
          | overrun ↦ overran
          | fine ↦
              by_mode env junk unipolar (calc_transient_table fl solve beyond behind) first second
                (check u.prev_tg) (record s { control = u })
          | _ ↦ give_up (decline + target_table_wrong) (record s { control = u })
        ])

    unfoldable pub proc_update_target : Tables Float → Updated (Tables Float)
    unfolding update_with get_recv
    proc_update_target s0 =
        let t0 = s0.control in
        let s = with_status junk (record s0 { control = record t0 { alarm_bits = 0 } }) in
        elim (lookup status_message_id (rxpsc s).recv_blocks) [
          | none ↦ crashed
          | some b ↦ update_with b s
        ]
