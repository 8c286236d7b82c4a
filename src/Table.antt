-- ===== src/Table.antt =====
-- The ramp tables of a power supply (pscApp/src/psctbl.cpp). This module has the `TableController`,
-- how records find theirs, and the handlers that set its fields.
pub mod Ramp
pub mod Pack
pub mod Transient
pub mod Update
mod Tests
use pscdrv.Common.{
  ℕ, List, [], ◌∷◌, ◌++◌, Bool, true, false, ◌&&◌, ◌||◌, Option, none, some, String, leb, ltb, ◌==◌,
  if◌then◌else◌, ◌%◌, ◌^◌,
}
use pscdrv.Floating.{Floating}
use pscdrv.Outcome.{Status, write_alarm, Severity, invalid_alarm}

-- `TableController`; the PSCs it points to stand beside it. An int is its bit pattern. `scans` counts
-- the requests on `errorscan`.
pub record Controller (Float : Type 0) : Type 0 where
  pub bid : ℕ
  pub next_tr : List Float
  pub next_tg : List Float
  pub prev_tg : List Float
  pub curmode : ℕ
  pub max_delta1 : Float
  pub max_delta2 : Float
  pub start_point : ℕ
  pub alarm_bits : ℕ
  pub scans : ℕ

-- What the fields without an initialiser hold.
pub record Junk (Float : Type 0) : Type 0 where
  pub mode : ℕ
  pub delta1 : Float
  pub delta2 : Float
  pub start : ℕ
  pub alarms : ℕ

unfoldable pub new_controller : {Float : Type 0} → Junk Float → ℕ → Controller Float
new_controller junk block = record {
  bid = block % 2 ^ 16;
  next_tr = [];
  next_tg = [];
  prev_tg = [];
  curmode = junk.mode;
  max_delta1 = junk.delta1;
  max_delta2 = junk.delta2;
  start_point = junk.start;
  alarm_bits = junk.alarms;
  scans = 0;
}

-- An entry of `tcmap`: its key, which is a PSC and a block, the PSC that it receives from, and the
-- controller. PSCs are pointers: a number stands for one.
pub record Entry (Float : Type 0) : Type 0 where
  pub psc : ℕ
  pub block : ℕ
  pub rxpsc : ℕ
  pub controller : Controller Float

-- A link as the stream leaves it: whether the stream is bad, the names, and the block, which is junk
-- where it could not be read.
pub record Link : Type 0 where
  pub bad : Bool
  pub name : String
  pub rxname : String
  pub block : ℕ

module _ {Float : Type 0} where
  unfoldable pub find_entry : ℕ → ℕ → List (Entry Float) → Option (Entry Float)
  find_entry psc block [] = none
  find_entry psc block (e ∷ es) =
      let rest = find_entry psc block es in
      if e.psc == psc && e.block == block then some e else rest

  -- `parse_link_table`: the map after it, and the entry that `dpvt` is set to, if any.
  unfoldable pub parse_link_table :
      Junk Float
      → (String → Option ℕ)
      → Link
      → List (Entry Float)
      → List (Entry Float) × Option (Entry Float)
  unfolding find_entry new_controller
  parse_link_table junk psc_of l es = if l.bad then (es, none) else (elim (psc_of l.name) [
    | none ↦ (es, none)
    | some psc ↦ elim (psc_of l.rxname) [
      | none ↦ (es, none)
      | some rxpsc ↦ elim (find_entry psc l.block es) [
        | some e ↦ (es, some e)
        | none ↦
            let e : Entry Float = record {
              psc = psc;
              block = l.block;
              rxpsc = rxpsc;
              controller = new_controller junk l.block;
            } in
            (es ++ (e ∷ []), some e)
      ]
    ]
  ])

  -- The init functions of the record types: `wants_float` is whether FTVL is checked, and the result
  -- has the status.
  unfoldable pub init_record :
      Option Bool
      → ℕ
      → Junk Float
      → (String → Option ℕ)
      → Link
      → List (Entry Float)
      → ℕ × List (Entry Float) × Option (Entry Float)
  unfolding parse_link_table
  init_record (some false) status junk psc_of l es = (0, es, none)
  init_record (some true) status junk psc_of l es =
      let (es', e) = parse_link_table junk psc_of l es in (status, es', e)
  init_record none status junk psc_of l es =
      let (es', e) = parse_link_table junk psc_of l es in (status, es', e)

-- A handler that sets a field: the alarm that it raises, and the controller.
abbrev pub Set : Type 0 → Type 0
Set Float = Option (Status × Severity) × Controller Float

abbrev pub refuse : {Float : Type 0} → Controller Float → Set Float
refuse t = (some (write_alarm, invalid_alarm), t)

module _ (fl : Floating) where
  open fl use {Float, Double}

  -- RVAL is unsigned.
  unfoldable pub proc_set_mode : ℕ → Controller Float → Set Float
  proc_set_mode rval t = if ltb 2 rval then refuse t else (none, record t { curmode = rval })

  unfoldable pub proc_set_max_delta1 : Double → Controller Float → Set Float
  proc_set_max_delta1 val t =
      if fl.lt val (fl.of_int 0) then refuse t else (none, record t { max_delta1 = fl.narrow val })

  unfoldable pub proc_set_max_delta2 : Double → Controller Float → Set Float
  proc_set_max_delta2 val t =
      if fl.lt val (fl.of_int 0) then refuse t else (none, record t { max_delta2 = fl.narrow val })

  -- VAL is an epicsInt32 as its bit pattern.
  unfoldable pub proc_set_start_point : ℕ → Controller Float → Set Float
  proc_set_start_point val t =
      if leb (2 ^ 31) val then refuse t else (none, record t { start_point = val })

  unfoldable pub proc_read_alarms : Controller Float → ℕ
  proc_read_alarms t = t.alarm_bits
