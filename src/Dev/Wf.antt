-- ===== src/Dev/Wf.antt =====
-- Waveforms from and to a whole block: coreApp/src/devPSCWf.cpp.
pub mod Values
use pscdrv.Common.{
  ℕ, zero, suc, List, [], ◌∷◌, ◌++◌, length, take, drop, overwrite, map, Bool, true, false, not,
  Option, none, some, ltb, leb, ◌==◌, if◌then◌else◌, ◌+◌, ◌%◌, ◌^◌,
}
use pscdrv.Wire.{Endian, Width, sizeof, store, hton, bytes2val}
use pscdrv.Block.{Block}
use pscdrv.Outcome.{read_alarm}
use pscdrv.Psc.State.{Env, Psc}
use pscdrv.Psc.Send.{queue_block}
use pscdrv.Dev.Link.{
  Priv, block_of, success, no_private, Rec, Handled, done, null, stamp, caught, set_alarm,
}
use pscdrv.Dev.Analog.{Floats}

-- The loop of `read_wf<T>`: `n` elements of the record are left, `src` is a size_t of 64 bits. A
-- value is read from memory at `src`, in which `beyond` follows the bytes of the block.
unfoldable pub read_values : Endian → Width → ℕ → List ℕ → List ℕ → ℕ → ℕ → List ℕ
read_values host w step bytes beyond zero src = []
read_values host w step bytes beyond (suc n) src =
    let rest = read_values host w step bytes beyond n ((src + step) % 2 ^ 64) in
    if ltb src (length bytes) then bytes2val host w (drop src (bytes ++ beyond)) ∷ rest else []

-- The vector `to` of `write_wf<T>`, as bytes.
unfoldable pub wire_values : Endian → Width → List ℕ → List ℕ
wire_values host w [] = []
wire_values host w (x ∷ xs) = store host (sizeof w) (hton host w x) ++ wire_values host w xs

module _ (fl : Floats) (env : Env) where
  -- `read_wf<T>`
  unfoldable pub read_wf : Width → List ℕ → Option Priv → Psc → Rec fl.Real → Handled (Rec fl.Real)
  unfolding read_values stamp
  read_wf w beyond none p r = done no_private r p
  read_wf w beyond (some v) p r =
      if not p.connected then done success (set_alarm read_alarm r) p else (elim (block_of v p) [
        | none ↦ null
        | some b ↦
            let step = if v.step == 0 then sizeof w else v.step in
            let values =
              map (fl.of_bits w)
                (read_values env.host w step b.data_bytes beyond r.nelm v.offset) in
            stamp env.host success v p
              (record r { elements = overwrite values r.elements; nord = length values })
      ])

  -- `read_wf_bytes`
  unfoldable pub read_wf_bytes : Option Priv → Psc → Rec fl.Real → Handled (Rec fl.Real)
  unfolding stamp
  read_wf_bytes none p r = done no_private r p
  read_wf_bytes (some v) p r =
      if not p.connected then done success (set_alarm read_alarm r) p else (elim (block_of v p) [
        | none ↦ null
        | some b ↦
            let size = length b.data_bytes in
            let len = if leb r.nelm size then r.nelm else size in
            stamp env.host success v p
              (record r { text = overwrite (take len b.data_bytes) r.text; nord = len })
      ])

  -- `write_wf<T>`; the block is one of `send_blocks`.
  unfoldable pub write_wf : Width → Bool → Option Priv → Psc → Rec fl.Real → Handled (Rec fl.Real)
  unfolding wire_values queue_block
  write_wf w fits none p r = done no_private r p
  write_wf w fits (some v) p r =
      let to = wire_values env.host w (map (fl.to_bits w) (take r.nord r.elements)) in
      if not p.connected
      then done success (set_alarm read_alarm r) p
      else caught (queue_block env fits v.bid to p) r

  -- `write_wf_bytes`
  unfoldable pub write_wf_bytes : Bool → Option Priv → Psc → Rec fl.Real → Handled (Rec fl.Real)
  unfolding queue_block
  write_wf_bytes fits none p r = done no_private r p
  write_wf_bytes fits (some v) p r =
      if not p.connected
      then done success (set_alarm read_alarm r) p
      else caught (queue_block env fits v.bid (take r.nord r.text) p) r
