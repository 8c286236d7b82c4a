-- ===== src/Dev/Single.antt =====
-- Single registers by address: coreApp/src/devPSCSingle.cpp.
pub mod Sync
use Prim.Native.Nat.{bit_and}
use pscdrv.Common.{
  ℕ, List, [], ◌∷◌, ◌++◌, length, take, drop, Bool, true, false, not, Option, none, some, ltb, ◌==◌,
  if◌then◌else◌, ◌+◌, ◌%◌, ◌^◌,
}
use pscdrv.Wire.{Endian, Width, w8, w16, w32, w64, sizeof, load, store, htonl, hton, bytes2val}
use pscdrv.Block.{Block}
use pscdrv.Outcome.{
  Result, ok, threw, aborted, faulted, rec_alarm, write_alarm, udf_alarm, invalid_alarm,
}
use pscdrv.Psc.State.{Env, Psc}
use pscdrv.Psc.Send.{queue_send}
use pscdrv.Dev.Link.{
  Priv, block_of, success, no_private, bad_request, Rec, Handled, done, null, failed, raise,
  set_alarm,
}
use pscdrv.Dev.Analog.{Floats, Scaling, raw_to_egu, egu_to_raw}

-- `SinglePriv` behind its `Priv`.
pub record SinglePriv : Type 0 where
  pub sync_data : List ℕ
  pub sync_now : Bool

-- `sizeof(msg<T>::frame)`, and the place of `val` in it, where a type is aligned to its size.
abbrev pub frame_size : Width → ℕ
frame_size w8 = 8
frame_size w16 = 8
frame_size w32 = 8
frame_size w64 = 16

abbrev pub val_at : Width → ℕ
val_at w8 = 4
val_at w16 = 4
val_at w32 = 4
val_at w64 = 8

-- `received_block`, the listener of the record on its block: the flag is the request of the callback
-- that processes the record.
unfoldable pub received_block : Endian → Priv → Block → SinglePriv → SinglePriv × Bool
received_block host v block s =
    let addr = htonl host (load host (take 4 block.data_bytes)) in
    let request = length s.sync_data == 0 in
    if ltb (length block.data_bytes) 8
    then (s, false)
    else if not (v.offset == addr)
    then (s, false)
    else (record s { sync_data = block.data_bytes }, request)

-- How `read_msg<T>` ends: it returns without a value, it reads past the end of `syncData`, its
-- assertion fails, or it has the value.
pub data Synced : Type 0 where
  too_short : SinglePriv → Synced
  over_read : Synced
  mismatch : Synced
  value : ℕ → SinglePriv → Synced

unfoldable pub read_msg : Endian → Width → Priv → Block → SinglePriv → Synced
read_msg host w v block s =
    let addr = htonl host (load host (take 4 s.sync_data)) in
    if ltb (length block.data_bytes) (frame_size w)
    then too_short s
    else if ltb (length s.sync_data) (frame_size w)
    then over_read
    else if not (v.offset == addr)
    then mismatch
    else value (bytes2val host w (drop (val_at w) s.sync_data)) (record s { sync_data = [] })

-- The bytes that `write_msg<T>` sends. `pad` is what the padding of the frame holds.
unfoldable pub msg_bytes : Endian → Width → List ℕ → ℕ → ℕ → List ℕ
msg_bytes host w pad offset x =
    store host 4 (hton host w32 (offset % 2 ^ 32)) ++ pad ++ store host (sizeof w) (hton host w x)

-- `write_msg<T>`
unfoldable pub write_msg : Env → Width → List ℕ → ℕ → Bool → Priv → ℕ → Psc → Result Psc
unfolding msg_bytes queue_send
write_msg env w pad junk fits v x p =
    if not p.connected
    then threw (rec_alarm write_alarm invalid_alarm) p
    else queue_send env junk fits v.bid (msg_bytes env.host w pad v.offset x) p

-- `init_output` of this file adds the record to the listeners of its block: `sync` is whether its
-- SYNC item says SAME, and then the block is a received one; else there is no block.
abbrev pub direction_of : Bool → ℕ
direction_of sync = if sync then 0 else 2

abbrev pub State : Type 0 → Type 0
State Real = Rec Real × SinglePriv

module _ {Real : Type 0} (env : Env) where
  -- The frame of the handlers: a message is sent, or the value is taken over that has come in.
  -- `put` has what came in, or nothing where `read_msg` returns early.
  unfoldable pub single_with :
      Width
      → List ℕ
      → ℕ
      → Bool
      → (Rec Real → ℕ)
      → (Rec Real → Rec Real)
      → (Option ℕ → Rec Real → Rec Real)
      → Option Priv
      → Psc
      → State Real
      → Handled (State Real)
  unfolding write_msg read_msg
  single_with w pad junk fits out sent put none p rs = done no_private rs p
  single_with w pad junk fits out sent put (some v) p (r, s) =
      if not s.sync_now
      then (elim (write_msg env w pad junk fits v (out r) p) [
        | ok q ↦ done success (sent r, s) q
        | threw e q ↦ done bad_request (raise e r, s) q
        | aborted ↦ failed
        | faulted ↦ null
      ])
      else (elim (block_of v p) [
        | none ↦ null
        | some b ↦ elim (read_msg env.host w v b s) [
          | too_short s' ↦ done success (put none r, s') p
          | over_read ↦ null
          | mismatch ↦ failed
          | value x s' ↦ done success (put (some x) (record r { udf_pending = false }), s') p
        ]
      ])

  -- `write_msg_val<epicsInt32>`
  unfoldable pub write_msg_val :
      List ℕ → ℕ → Bool → Option Priv → Psc → State Real → Handled (State Real)
  unfolding single_with
  write_msg_val pad junk fits =
      single_with w32 pad junk fits (λ r. r.val) (λ r. record r { udf = false })
        (λ x r. record r { val = elim x [ none ↦ r.val | some y ↦ y ]; udf = false })

  -- `write_msg_binary_rval`; a value that is not there counts as 0.
  unfoldable pub write_msg_binary_rval :
      List ℕ → ℕ → Bool → Option Priv → Psc → State Real → Handled (State Real)
  unfolding single_with
  write_msg_binary_rval pad junk fits =
      single_with w32 pad junk fits (λ r. if r.mask == 0 then r.rval else bit_and r.rval r.mask)
        (λ r. r) (λ x r. record r { rval = elim x [ none ↦ 0 | some y ↦ y ] })

module _ (fl : Floats) (env : Env) (sc : Scaling fl.Real) where
  abbrev scaled : fl.Real → Rec fl.Real → Rec fl.Real
  scaled x r =
      let egu = raw_to_egu fl sc x in
      let r' : Rec fl.Real = record r { fval = egu; udf = fl.is_nan egu } in
      if fl.is_nan egu then set_alarm udf_alarm r' else r'

  -- `write_msg_rval`; `of_raw` is the cast of RVAL to a double.
  unfoldable pub write_msg_rval :
      (ℕ → fl.Real)
      → List ℕ
      → ℕ
      → Bool
      → Option Priv
      → Psc
      → State fl.Real
      → Handled (State fl.Real)
  unfolding single_with raw_to_egu
  write_msg_rval of_raw pad junk fits =
      single_with env w32 pad junk fits (λ r. r.rval) (λ r. r)
        (λ x r.
          let raw = elim x as (λ _. ℕ) [ none ↦ r.rval | some y ↦ y ] in
          scaled (of_raw raw) (record r { rval = raw }))

  -- `write_msg_val_ao<T>`
  unfoldable pub write_msg_val_ao :
      Width → List ℕ → ℕ → Bool → Option Priv → Psc → State fl.Real → Handled (State fl.Real)
  unfolding single_with raw_to_egu egu_to_raw
  write_msg_val_ao w pad junk fits =
      single_with env w pad junk fits (λ r. fl.to_bits w (egu_to_raw fl sc r.fval)) (λ r. r)
        (λ x r. scaled (fl.of_bits w (elim x as (λ _. ℕ) [ none ↦ 0 | some y ↦ y ])) r)
