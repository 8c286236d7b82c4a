-- ===== src/Dev/Link.antt =====
-- `Priv`, `parse_link`, `setRecTimestamp` and `CATCH` (coreApp/src/psc/devcommon.h,
-- coreApp/src/devcommon.cpp).
pub mod Stamps
use pscdrv.Common.{
  ℕ, List, [], ◌∷◌, ◌++◌, length, take, drop, Bool, true, false, ◌&&◌, Option, none, some, String,
  ltb, if◌then◌else◌, lookup, insert, ◌⊎◌, inl, inr, ◌==◌, not, ◌+◌, ◌-◌, ◌%◌, ◌^◌,
}
use pscdrv.Wire.{Endian, htonl, load}
use pscdrv.Block.{Block}
use pscdrv.Outcome.{
  Status, comm_alarm, Severity, invalid_alarm, Error, rec_alarm, runtime_error, bad_alloc, Result,
  ok, threw, aborted, faulted,
}
use pscdrv.Psc.State.{Psc, get_send, get_recv}

-- Which map of the PSC the `block` pointer points into; `no_block` is a null pointer.
pub data Side : Type 0 where
  receives sends no_block : Side

-- `psc` is the PSC at hand, and `prec` the record. `offset` and `tsoffset` are unsigned longs, `step`
-- a long as its bit pattern, all of 64 bits.
pub record Priv : Type 0 where
  pub bid : ℕ
  pub side : Side
  pub offset : ℕ
  pub step : ℕ
  pub time_from_block : Bool
  pub tsoffset : ℕ

-- The block that `priv->block` points to.
abbrev pub block_of : Priv → Psc → Option Block
block_of v p = elim v.side [
  | receives ↦ lookup v.bid p.recv_blocks
  | sends ↦ lookup v.bid p.send_blocks
  | no_block ↦ none
]

-- What `istringstream` reads from a link: the PSC's name, the block as an unsigned int, the offset
-- and the step, 0 where they are left out; nothing if it fails.
pub record LinkText : Type 0 where
  pub name : String
  pub block : ℕ
  pub offset : ℕ
  pub step : ℕ

abbrev priv_of : LinkText → Option ℕ → ℕ → Side → Priv
priv_of t ts code s = record {
  bid = code;
  side = s;
  offset = t.offset;
  step = t.step;
  time_from_block = elim ts [ none ↦ false | some _ ↦ true ];
  tsoffset = elim ts [ none ↦ 0 | some n ↦ n ];
}

-- `parse_link`, on a link as `istringstream` reads it, the PSC of that name, the `TimeFromBlock`
-- item if the record has one that reads as a number, and `direction`. `bid` and the code that
-- `getRecv` and `getSend` take are epicsUInt16.
unfoldable pub parse_link :
    ℕ → Option LinkText → (String → Option Psc) → Option ℕ → ℕ → Error ⊎ (Psc × Priv)
unfolding get_send get_recv
parse_link junk none psc_of ts direction = inl (runtime_error "Link parsing error")
parse_link junk (some t) psc_of ts direction = elim (psc_of t.name) [
  | none ↦ inl (runtime_error "PSC name not known")
  | some p ↦
      let code = t.block % 2 ^ 16 in
      if direction == 0
      then inr (get_recv junk code p, priv_of t ts code receives)
      else if direction == 1
      then inr (get_send junk code p, priv_of t ts code sends)
      else inr (p, priv_of t ts code no_block)
]

-- A stamp: seconds past the EPICS epoch and nanoseconds, or the time of receipt of a block.
pub data Stamp : Type 0 where
  from_data : ℕ → ℕ → Stamp
  from_receipt : ℕ → Stamp

-- POSIX_TIME_AT_EPICS_EPOCH
abbrev pub epics_epoch : ℕ
epics_epoch = 631152000

-- `setRecTimestamp`, with whether TSE asks for the device's time: nothing, or the new stamp. A null
-- `block` is used where no time comes from its data: `none` inside.
unfoldable pub set_rec_timestamp : Endian → Bool → Priv → Psc → Option (Option Stamp)
set_rec_timestamp host device_time v p =
    let sum = (v.tsoffset + 8) % 2 ^ 64 in
    if not device_time then none else elim (block_of v p) [
      | none ↦ some none
      | some b ↦
          if v.time_from_block && ltb sum (length b.data_bytes)
          then (let bytes = take 8 (drop v.tsoffset b.data_bytes) in
              some (
                some (
                  from_data
                    ((htonl host (load host (take 4 bytes)) + 2 ^ 32 - epics_epoch) % 2 ^ 32)
                    (htonl host (load host (drop 4 bytes))))))
          else some (some (from_receipt b.rxtime))
    ]

-- The handlers return a status; `S_dev_badRequest` follows from a throw.
pub data Code : Type 0 where
  success no_private bad_request no_convert : Code

-- The fields of a record, of whatever type, that the handlers use. `Real` is the type `double`;
-- `val` is an integer VAL and `fval` a floating one. `text` is a string VAL, of 40 bytes,
-- or the array of a CHAR waveform, and `elements` that of a DOUBLE one, with NELM and NORD. Integers are
-- bit patterns.
-- `udf_pending`: the alarm that waits in NSTA and NSEV is an invalid UDF alarm.
pub record Rec (Real : Type 0) : Type 0 where
  pub mask : ℕ
  pub rval : ℕ
  pub val : ℕ
  pub fval : Real
  pub udf : Bool
  pub udf_pending : Bool
  pub text : List ℕ
  pub nelm : ℕ
  pub nord : ℕ
  pub elements : List Real
  pub alarms : List (Status × Severity)
  pub device_time : Bool
  pub time : Stamp

-- A handler ends with its status, has used a null pointer, or has failed an assertion.
pub data Handled (R : Type 0) : Type 0 where
  done : Code → R → Psc → Handled R
  null : Handled R
  failed : Handled R

-- What `CATCH` makes of an exception: the alarm that it sets on the record.
abbrev pub alarm_of : Error → Status × Severity
alarm_of (rec_alarm st sv) = (st, sv)
alarm_of (runtime_error t) = (comm_alarm, invalid_alarm)
alarm_of bad_alloc = (comm_alarm, invalid_alarm)

abbrev pub raise : {Real : Type 0} → Error → Rec Real → Rec Real
raise e r = record r { alarms = r.alarms ++ (alarm_of e ∷ []) }

-- `setRecTimestamp(priv)` at the end of a handler.
unfoldable pub stamp : {Real : Type 0} → Endian → Code → Priv → Psc → Rec Real → Handled (Rec Real)
unfolding set_rec_timestamp
stamp host code v p r = elim (set_rec_timestamp host r.device_time v p) [
  | none ↦ done code r p
  | some none ↦ null
  | some (some t) ↦ done code (record r { time = t }) p
]

-- The PSC with another block in the place that `priv->block` points to.
abbrev pub set_block : Priv → Block → Psc → Psc
set_block v b p = elim v.side [
  | receives ↦ record p { recv_blocks = insert v.bid b p.recv_blocks }
  | sends ↦ record p { send_blocks = insert v.bid b p.send_blocks }
  | no_block ↦ p
]

-- `CATCH` round the call of a method of the PSC.
abbrev pub caught : {Real : Type 0} → Result Psc → Rec Real → Handled (Rec Real)
caught (ok q) r = done success r q
caught (threw e q) r = done bad_request (raise e r) q
caught aborted r = failed
caught faulted r = null

abbrev pub set_alarm : {Real : Type 0} → Status → Rec Real → Rec Real
set_alarm st r = record r { alarms = r.alarms ++ ((st, invalid_alarm) ∷ []) }
