-- ===== src/Dev/Ctrl.antt =====
-- Status and commands of a PSC: coreApp/src/devPSCCtrl.cpp.
pub mod Handlers
use pscdrv.Common.{
  ℕ, List, [], ◌∷◌, ◌++◌, lookup, Bool, true, false, not, ◌||◌, Option, none, some, String, ltb,
  leb, ◌==◌, if◌then◌else◌, ◌⊎◌, inl, inr, ◌%◌, ◌^◌,
}
use pscdrv.Block.{Block}
use pscdrv.Outcome.{Error, runtime_error, write_alarm}
use pscdrv.Psc.State.{Env, Psc, get_send, get_recv}
use pscdrv.Psc.Send.{send, flush_send}
use pscdrv.Psc.Link.{force_reconnect}
use pscdrv.Dev.Link.{
  Side, receives, sends, success, no_private, Rec, Handled, done, null, caught, set_alarm,
}

-- The third word of a link of `init_count`.
pub data Direction : Type 0 where
  rx tx other : Direction

-- `init_count`, on a link as `istringstream` reads it (nothing if that fails) and the PSC of a name:
-- the PSC with the block, and the side and the code of it.
unfoldable pub init_count :
    ℕ → Option (String × ℕ × Direction) → (String → Option Psc) → Error ⊎ (Psc × Side × ℕ)
unfolding get_send get_recv
init_count junk none psc_of = inl (runtime_error "Failed to parse INP")
init_count junk (some (name, blocknum, direction)) psc_of = elim (psc_of name) [
  | none ↦ inl (runtime_error "Can't find PSC")
  | some p ↦
      let code = blocknum % 2 ^ 16 in
      elim direction [
        | rx ↦ inr (get_recv junk code p, receives, code)
        | tx ↦ inr (get_send junk code p, sends, code)
        | other ↦ inl (runtime_error "Invalid direction")
      ]
]

abbrev counted : Side → ℕ → Psc → Option Block
counted receives code p = lookup code p.recv_blocks
counted sends code p = lookup code p.send_blocks
counted Side.no_block code p = none

-- `present`: the record found its PSC, which is `p`.
module _ {Real : Type 0} where
  unfoldable pub read_bi_connected : Bool → Psc → Rec Real → Handled (Rec Real)
  read_bi_connected present p r =
      if not present
      then done no_private r p
      else done success (record r { rval = if p.connected then 1 else 0 }) p

  unfoldable pub read_unknown_count : Bool → Psc → Rec Real → Handled (Rec Real)
  read_unknown_count present p r =
      if not present then done no_private r p else done success (record r { val = p.ukncount }) p

  unfoldable pub read_connection_count : Bool → Psc → Rec Real → Handled (Rec Real)
  read_connection_count present p r =
      if not present then done no_private r p else done success (record r { val = p.conncount }) p

  -- The record's block is given by its side and code.
  unfoldable pub read_block_count : Option (Side × ℕ) → Psc → Rec Real → Handled (Rec Real)
  read_block_count none p r = done no_private r p
  read_block_count (some (side, code)) p r = elim (counted side code p) [
    | none ↦ null
    | some b ↦ done success (record r { val = b.count }) p
  ]

  unfoldable pub write_force_reconnect : Bool → Psc → Rec Real → Handled (Rec Real)
  unfolding force_reconnect
  write_force_reconnect present p r =
      if not present then done no_private r p else caught (force_reconnect p) r

  unfoldable pub write_bo_send_changed : Env → Bool → Bool → Psc → Rec Real → Handled (Rec Real)
  unfolding flush_send
  write_bo_send_changed env moved present p r =
      if not present
      then done no_private r p
      else if not p.connected
      then done success (set_alarm write_alarm r) p
      else caught (flush_send env moved p) r

  -- VAL is an epicsInt32 as its bit pattern: from 2 ^ 31 on it is negative.
  unfoldable pub write_lo_send_block : Env → Bool → Bool → Psc → Rec Real → Handled (Rec Real)
  unfolding send
  write_lo_send_block env fits present p r =
      if not present
      then done no_private r p
      else if leb (2 ^ 31) r.val || ltb 0xffff r.val
      then done success (set_alarm write_alarm r) p
      else caught (send env fits r.val p) r
