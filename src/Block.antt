-- ===== src/Block.antt =====
-- `struct Block` of coreApp/src/psc/device.h, `Block::Block` and the block maps of
-- coreApp/src/pscbase.cpp, and what a driver asks of the rest of the control system.
use pscdrv.Common.{ℕ, List, [], ◌∷◌, map, Bool, false, ◌+◌, ◌%◌, ◌^◌, none, some, lookup, insert}
use pscdrv.CbList.{Callback}

-- Bytes are numbers below 256. `scan` is a handle of the scan system: a request on it is an effect,
-- named by the block. The reference `psc` is the map that the block stands in.
pub record Block : Type 0 where
  pub code : ℕ
  pub data_bytes : List ℕ
  pub queued : Bool
  pub listeners : List Callback
  pub count : ℕ
  pub rxtime : ℕ

abbrev pub BlockMap : Type 0
BlockMap = List (ℕ × Block)

-- The constructor has no initialiser for `count`: `junk` is what the allocated memory held.
-- `epicsTime()` is time 0.
unfoldable pub new_block : ℕ → ℕ → Block
new_block junk code = record {
  code = code;
  data_bytes = [];
  queued = false;
  listeners = [];
  count = junk;
  rxtime = 0;
}

-- `getSend` and `getRecv` are this, on `send_blocks` and `recv_blocks`: the map after the call.
-- The pointer that they return is the key of the block in its map.
unfoldable pub get_block : ℕ → ℕ → BlockMap → BlockMap
unfolding new_block
get_block junk code m = elim (lookup code m) [
  | some b ↦ m
  | none ↦ insert code (new_block junk code) m
]

-- epicsUInt32
abbrev pub incr32 : ℕ → ℕ
incr32 n = (n + 1) % 2 ^ 32

-- What the driver asks for, in order: a scan of the records of a received block, a scan of the
-- records of the driver's status, and the call of a listener on a block.
pub data Effect : Type 0 where
  scan_block : ℕ → Effect
  scan_status : Effect
  listener : Callback → Block → Effect

-- `scanIoRequest(block->scan); block->listeners(block);`
abbrev pub announce : Block → List Effect
announce b = scan_block b.code ∷ map (λ c. listener c b) b.listeners
