-- ===== src/Dev/Init.antt =====
-- The `init_record` functions of the device support: coreApp/src/devPSCReg.cpp,
-- coreApp/src/devPSCWf.cpp, coreApp/src/devPSCString.cpp, coreApp/src/devPSCCtrl.cpp and
-- coreApp/src/devPSCSingle.cpp.
pub mod Bindings
use pscdrv.Common.{
  ℕ, List, [], ◌∷◌, ◌++◌, Bool, true, false, not, Option, none, some, String, if◌then◌else◌, inl,
  inr,
}
use pscdrv.CbList.{add}
use pscdrv.Block.{Block}
use pscdrv.Psc.State.{Psc}
use pscdrv.Dev.Link.{
  Priv, LinkText, parse_link, block_of, set_block, Code, success, bad_request, Rec, raise,
}
use pscdrv.Dev.Reg.{shift_mask}
use pscdrv.Dev.Single.{SinglePriv, direction_of}

-- How it ends: with a status, and `dpvt` set to a `Priv` of a PSC or not.
pub data Bound (R : Type 0) : Type 0 where
  bound : R → Psc → Priv → Bound R
  unbound : Code → R → Bound R

-- The link of the record as its functions give it to `parse_link`: what `istringstream` reads, and
-- the `TimeFromBlock` item; `junk` is what a new block's count holds, `psc_of` is `getPSCBase`.
pub record Link : Type 0 where
  pub text : Option LinkText
  pub time_item : Option ℕ
  pub junk : ℕ
  pub psc_of : String → Option Psc

module _ {Real : Type 0} (l : Link) where
  -- The frame of them all: `parse_link` inside `CATCH`.
  unfoldable pub init_link : ℕ → Rec Real → Bound (Rec Real)
  unfolding parse_link
  init_link direction r = elim (parse_link l.junk l.text l.psc_of l.time_item direction) [
    | inl e ↦ unbound bad_request (raise e r)
    | inr (p, v) ↦ bound r p v
  ]

  -- `extra_init<R>::op`, with SHFT for the record types that shift their mask.
  abbrev extra_init : Option ℕ → Rec Real → Rec Real
  extra_init none r = r
  extra_init (some shft) r = shift_mask shft r

  -- devPSCReg.cpp
  unfoldable pub init_input : Option ℕ → Rec Real → Bound (Rec Real)
  unfolding init_link shift_mask
  init_input shft r = init_link 0 (extra_init shft r)

  unfoldable pub init_rb : Option ℕ → Rec Real → Bound (Rec Real)
  unfolding init_link shift_mask
  init_rb shft r = init_link 1 (extra_init shft r)

  unfoldable pub init_output : Option ℕ → Rec Real → Bound (Rec Real)
  unfolding init_link shift_mask
  init_output shft r = init_link 1 (extra_init shft r)

  -- `init_wf_record<dir>` and `init_wf_record_bytes<dir>`, with whether FTVL is as they want it.
  unfoldable pub init_wf_record : ℕ → Bool → Rec Real → Bound (Rec Real)
  unfolding init_link
  init_wf_record dir ftvl_fits r = if not ftvl_fits then unbound success r else init_link dir r

  -- devPSCString.cpp
  unfoldable pub init_si_record : Rec Real → Bound (Rec Real)
  unfolding init_link
  init_si_record r = init_link 0 r

  unfoldable pub init_so_record : Rec Real → Bound (Rec Real)
  unfolding init_link
  init_so_record r = init_link 1 r

  -- `init_output` of devPSCSingle.cpp: `sync` is whether the SYNC item says SAME. The callback is the
  -- function `received_block`, a number here, with the record's `SinglePriv` as its user pointer.
  unfoldable pub init_single : ℕ → ℕ → Bool → Option ℕ → Rec Real → Bound (Rec Real × SinglePriv)
  unfolding init_link shift_mask add
  init_single func user sync shft r =
      let s : SinglePriv = record { sync_data = []; sync_now = false } in
      elim (init_link (direction_of sync) (extra_init shft r)) [
        | unbound c r' ↦ unbound c (r', s)
        | bound r' p v ↦ elim (block_of v p) [
          | none ↦ bound (r', s) p v
          | some b ↦
              bound (r', s) (set_block v (record b { listeners = add func user b.listeners }) p) v
        ]
      ]

  -- `init_common` of devPSCCtrl.cpp, with the PSC that the link names: `dpvt` is the PSC or null.
  unfoldable pub init_common : Option Psc → Rec Real → Code × Option Psc × Rec Real
  init_common found r = (success, found, r)
