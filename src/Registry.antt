-- ===== src/Registry.antt =====
-- The drivers by name, and the commands and hooks of the shell: `PSCBase::pscmap`, `startAll`,
-- `getPSCBase`, `createPSC`, `createPSCUDP`, `setPSCSendBlockSize` and `PSCHook` of
-- coreApp/src/pscbase.cpp, with the constructors of `PSC` and `PSCUDP`.
pub mod Start
use pscdrv.Common.{
  ℕ, List, [], ◌∷◌, Bool, true, false, not, Option, none, some, lookup, insert, replicate, resize,
  ltb, ◌==◌, if◌then◌else◌, ◌%◌, ◌^◌,
}
use pscdrv.Block.{Block, BlockMap, get_block}
use pscdrv.Outcome.{Error, Result, ok, threw, aborted, faulted}
use pscdrv.Psc.State.{Env, Psc, new_psc}
use pscdrv.Psc.Link.{Attempt}
use pscdrv.Psc.Link
use pscdrv.Udp.{Udp}
use pscdrv.Udp

-- What a pointer of the map points to; `freed` is an object whose constructor has thrown.
pub data Driver : Type 0 where
  tcp : Psc → Driver
  udp : Udp → Driver
  freed : Driver

-- A name is a number here, in the order of the names. The list is in that order, as the map is.
abbrev pub Registry : Type 0
Registry = List (ℕ × Driver)

-- `PSCUDP::PSCUDP`, after its socket calls.
unfoldable pub new_udp : Udp
new_udp = record {
  connected = false;
  ukncount = 0;
  conncount = 0;
  send_blocks = [];
  recv_blocks = [];
  rxscratch = replicate 1024 0;
  message = "Initialize";
  readings = 0;
  log = [];
}

-- How a constructor ends: it throws before the base class has entered the object into the map, or
-- after that, or it returns.
pub data Built : Type 0 where
  no_base part_failed whole : Built

-- `pscmap[name] = d`
abbrev pub enter : ℕ → Driver → Registry → Registry
enter name d [] = (name, d) ∷ []
enter name d ((k, e) ∷ reg) =
    let rest = enter name d reg in
    if name == k
    then (name, d) ∷ reg
    else if ltb name k
    then (name, d) ∷ (k, e) ∷ reg
    else (k, e) ∷ rest

abbrev entered : ℕ → Driver → Built → Registry → Registry
entered name d no_base reg = reg
entered name d part_failed reg = enter name freed reg
entered name d whole reg = enter name d reg

-- `createPSC`; nothing takes the entry out again when the constructor throws.
unfoldable pub create_psc : ℕ → ℕ → Built → Registry → Registry
create_psc name mask built reg = entered name (tcp (new_psc mask)) built reg

-- `createPSCUDP`
unfoldable pub create_psc_udp : ℕ → Built → Registry → Registry
unfolding new_udp
create_psc_udp name built reg = entered name (udp new_udp) built reg

-- `PSCBase::getPSCBase`
abbrev pub get_psc_base : ℕ → Registry → Option Driver
get_psc_base name reg = lookup name reg

abbrev pub map_result : {A B : Type 0} → (A → B) → Result A → Result B
map_result f (ok a) = ok (f a)
map_result f (threw e a) = threw e (f a)
map_result f aborted = aborted
map_result f faulted = faulted

-- The call of the virtual `connect`, with libevent's answers to it.
unfoldable pub start_one : Env → Attempt → Bool → Driver → Result Driver
start_one env att added (tcp p) = map_result tcp (Link.connect env att p)
start_one env att added (udp u) = map_result udp (Udp.connect added u)
start_one env att added freed = faulted

-- `PSCBase::startAll`; a throw leaves the later drivers as they are.
unfoldable pub start_all : Env → (ℕ → Attempt × Bool) → Registry → Result Registry
unfolding start_one
start_all env answers [] = ok []
start_all env answers ((name, d) ∷ reg) =
    let rest = start_all env answers reg in
    elim (start_one env (answers name).0 (answers name).1 d) [
      | ok d' ↦ map_result (λ r. (name, d') ∷ r) rest
      | threw e d' ↦ threw e ((name, d') ∷ reg)
      | aborted ↦ aborted
      | faulted ↦ faulted
    ]

-- `PSCHook`, with whether the state is `initHookAfterIocRunning`.
unfoldable pub psc_hook : Bool → Env → (ℕ → Attempt × Bool) → Registry → Result Registry
unfolding start_all
psc_hook running env answers reg = if not running then ok reg else start_all env answers reg

-- The block's bytes after `resize`, which throws for a negative size: `none` here.
abbrev sized : ℕ → Option ℕ → BlockMap → BlockMap
sized code none m = m
sized code (some n) m = elim (lookup code m) [
  | none ↦ m
  | some b ↦ insert code (record b { data_bytes = resize n 0 b.data_bytes }) m
]

-- `setPSCSendBlockSize` by name. `bid` is an int, and `getSend` takes an epicsUInt16.
unfoldable pub set_send_block_size_of : ℕ → ℕ → ℕ → Option ℕ → Registry → Result Registry
set_send_block_size_of junk name bid size reg =
    let code = bid % 2 ^ 16 in
    let change = λ (m : BlockMap). sized code size (get_block junk code m) in
    elim (get_psc_base name reg) [
      | none ↦ ok reg
      | some (tcp p) ↦ ok (enter name (tcp (record p { send_blocks = change p.send_blocks })) reg)
      | some (udp u) ↦ ok (enter name (udp (record u { send_blocks = change u.send_blocks })) reg)
      | some freed ↦ faulted
    ]
