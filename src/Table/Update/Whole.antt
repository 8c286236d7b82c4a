-- ===== src/Table/Update/Whole.antt =====
-- An update of the table as a whole.
use pscdrv.Common.{ℕ, List, length, Bool, false, Option, none, some, lookup, ◌+◌, ltb}
use pscdrv.Block.{Block}
use pscdrv.Psc.State.{Env, Psc}
use pscdrv.Floating.{Floating}
use pscdrv.Table.{Controller}
use pscdrv.Table.Transient.{calc_transient_table}
use pscdrv.Table.Update.{
  Tables, Updated, loaded, update_with, Room, with_status, rxpsc, status_message_id, is_unipolar,
  reg_polarity_offset,
}

-- The status message ends before its polarity.
abbrev pub is_short : Block → Bool
is_short b = ltb (length b.data_bytes) (reg_polarity_offset + 4)

module _ (fl : Floating) (solve : List (List fl.Double) → List fl.Double → List fl.Double)
    (beyond behind : ℕ → fl.Float) (blank : fl.Float) (env : Env) (junk : ℕ) (first second : Room)
    (elements : List fl.Float) where
  open fl use {Float}

  -- The transient table, where it is computed.
  abbrev pub transient_of : Controller Float → List Float
  transient_of t =
      (calc_transient_table fl solve beyond behind (loaded fl blank elements t)).next_tr

  abbrev pub update : Block → Tables Float → Updated (Tables Float)
  update = update_with fl solve beyond behind blank env junk first second elements

  -- The block of the status message, once the handler has asked for it.
  abbrev pub status_block : Tables Float → Option Block
  status_block s = lookup status_message_id (rxpsc fl (with_status fl junk s)).recv_blocks

  abbrev pub unipolar_of : Tables Float → Bool
  unipolar_of s = elim (status_block s) [ none ↦ false | some b ↦ is_unipolar env.host b ]

  abbrev pub short_of : Tables Float → Bool
  short_of s = elim (status_block s) [ none ↦ false | some b ↦ is_short b ]

  -- The state once the handler has asked for that block.
  abbrev pub asked : Controller Float → Psc → Option Psc → Tables Float
  asked t tx rx =
      with_status fl junk (record { control = record t { alarm_bits = 0 }; tx = tx; rx = rx })
