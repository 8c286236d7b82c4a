-- ===== src/Dev/Reg.antt =====
-- Registers in a block: coreApp/src/devPSCReg.cpp.
pub mod Fields
use Prim.Native.Nat.{bit_and, bit_or}
use pscdrv.Common.{
  ℕ, List, [], ◌∷◌, ◌++◌, length, take, drop, overwrite_at, Bool, true, false, ◌||◌, Option, none,
  some, ltb, ◌==◌, if◌then◌else◌, ◌+◌, ◌-◌, ◌*◌, ◌%◌, ◌^◌,
}
use pscdrv.Wire.{Endian, Width, w32, sizeof, store, hton, bytes2val}
use pscdrv.Block.{Block}
use pscdrv.Outcome.{
  Status, soft_alarm, read_alarm, write_alarm, Severity, invalid_alarm, Error, rec_alarm,
}
use pscdrv.Psc.State.{Psc}
use pscdrv.Dev.Link.{
  Priv, block_of, set_block, Code, success, no_private, bad_request, no_convert, Rec, Handled, done,
  null, raise, stamp,
}
use pscdrv.Dev.Analog.{Floats, Scaling, raw_to_egu, egu_to_raw}

-- `extra_init<R>::op` of the multi-bit records: `prec->mask <<= prec->shft`, of 32 bits, for a shift
-- below 32.
unfoldable pub shift_mask : {Real : Type 0} → ℕ → Rec Real → Rec Real
shift_mask shft r = record r { mask = r.mask * 2 ^ shft % 2 ^ 32 }

-- `get_iointr_info` of this file, of devPSCWf.cpp and of devPSCString.cpp: the block whose scan list
-- the record joins; `none` inside is the use of a null `block`.
unfoldable pub get_iointr_info : Option Priv → Psc → Option (Option ℕ)
get_iointr_info none p = none
get_iointr_info (some v) p = some (elim (block_of v p) [ none ↦ none | some b ↦ some b.code ])

-- How an access ends: the throw of an alarm, the alarms that were set with the value read or the PSC
-- written, or the use of a null `block`.
pub data Access (A : Type 0) : Type 0 where
  refused : Error → Access A
  got : List (Status × Severity) → A → Access A
  no_block : Access A

abbrev pub out_of_block : Priv → Block → Width → Bool
out_of_block v b w =
    ltb (length b.data_bytes) v.offset || ltb (length b.data_bytes - v.offset) (sizeof w)

unfoldable pub read_to_field : Endian → Width → Priv → Psc → Access ℕ
read_to_field host w v p = elim (block_of v p) [
  | none ↦ no_block
  | some b ↦
      if out_of_block v b w
      then refused (rec_alarm soft_alarm invalid_alarm)
      else got (if p.connected then [] else (read_alarm, invalid_alarm) ∷ [])
          (bytes2val host w (drop v.offset b.data_bytes))
]

unfoldable pub write_from_field : Endian → Width → Priv → Psc → ℕ → Access Psc
write_from_field host w v p x = elim (block_of v p) [
  | none ↦ no_block
  | some b ↦
      let bytes = store host (sizeof w) (hton host w x) in
      let b' : Block = record b { data_bytes = overwrite_at v.offset bytes b.data_bytes } in
      if out_of_block v b w
      then refused (rec_alarm soft_alarm invalid_alarm)
      else got (if p.connected then [] else (write_alarm, invalid_alarm) ∷ []) (set_block v b' p)
]

module _ {Real : Type 0} (host : Endian) where
  -- The frame of the reading handlers: the field is read, used, and the record stamped.
  unfoldable pub read_with :
      Width → Code → (ℕ → Rec Real → Rec Real) → Option Priv → Psc → Rec Real → Handled (Rec Real)
  unfolding read_to_field stamp
  read_with w code put none p r = done no_private r p
  read_with w code put (some v) p r = elim (read_to_field host w v p) [
    | refused e ↦ done bad_request (raise e r) p
    | no_block ↦ null
    | got alarms x ↦ stamp host code v p (put x (record r { alarms = r.alarms ++ alarms }))
  ]

  unfoldable pub read_binary : Option Priv → Psc → Rec Real → Handled (Rec Real)
  unfolding read_with
  read_binary =
      read_with w32 success λ x r. record r { rval = if r.mask == 0 then x else bit_and x r.mask }

  unfoldable pub read_li : Option Priv → Psc → Rec Real → Handled (Rec Real)
  unfolding read_with
  read_li = read_with w32 success λ x r. record r { val = x }

  unfoldable pub read_ai : Option Priv → Psc → Rec Real → Handled (Rec Real)
  unfolding read_with
  read_ai = read_with w32 success λ x r. record r { rval = x }

  -- The frame of the writing handlers.
  unfoldable pub write_with : Width → ℕ → Option Priv → Psc → Rec Real → Handled (Rec Real)
  unfolding write_from_field
  write_with w x none p r = done no_private r p
  write_with w x (some v) p r = elim (write_from_field host w v p x) [
    | refused e ↦ done bad_request (raise e r) p
    | no_block ↦ null
    | got alarms q ↦ done success (record r { alarms = r.alarms ++ alarms }) q
  ]

  -- With a mask the other bits of the register are kept: it is read first.
  unfoldable pub write_binary : Option Priv → Psc → Rec Real → Handled (Rec Real)
  unfolding write_with read_to_field
  write_binary none p r = done no_private r p
  write_binary (some v) p r =
      if r.mask == 0
      then write_with w32 r.rval (some v) p r
      else (elim (read_to_field host w32 v p) [
        | refused e ↦ done bad_request (raise e r) p
        | no_block ↦ null
        | got alarms x ↦
            write_with w32 (bit_or (bit_and x (2 ^ 32 - 1 - r.mask)) (bit_and r.rval r.mask))
              (some v) p (record r { alarms = r.alarms ++ alarms })
      ])

  unfoldable pub write_lo : Option Priv → Psc → Rec Real → Handled (Rec Real)
  unfolding write_with
  write_lo v p r = write_with w32 r.val v p r

  unfoldable pub write_ao : Option Priv → Psc → Rec Real → Handled (Rec Real)
  unfolding write_with
  write_ao v p r = write_with w32 r.rval v p r

module _ (fl : Floats) (host : Endian) (s : Scaling fl.Real) where
  -- `read_ai_float<T>` and `write_ao_float<T>`; the record support converts no further.
  unfoldable pub read_ai_float : Width → Option Priv → Psc → Rec fl.Real → Handled (Rec fl.Real)
  unfolding read_with raw_to_egu
  read_ai_float w = read_with host w no_convert λ x r.
      let egu = raw_to_egu fl s (fl.of_bits w x) in record r { fval = egu; udf = fl.is_nan egu }

  unfoldable pub write_ao_float : Width → Option Priv → Psc → Rec fl.Real → Handled (Rec fl.Real)
  unfolding write_with egu_to_raw
  write_ao_float w v p r = write_with host w (fl.to_bits w (egu_to_raw fl s r.fval)) v p r
