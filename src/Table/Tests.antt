-- ===== src/Table/Tests.antt =====
-- The theorems on tables at concrete tables; whole numbers stand for both floating types.
use pscdrv.Common.{
  ℕ, List, [], ◌∷◌, true, false, none, some, ◌+◌, ◌-◌, ◌*◌, ◌≡◌, ◌↔◌, refl, arith, length, get_or,
  map, min, replicate,
}
use pscdrv.Wire.{little, to_be, htonl}
use pscdrv.Block.{Block}
use pscdrv.Recv.{idle_decoder}
use pscdrv.Psc.State.{Env, Psc, Session, min_max_buf_size}
use pscdrv.Floating.{Floating}
use pscdrv.Floating.Whole.{whole_numbers}
use pscdrv.Table.{Controller}
use pscdrv.Table.Ramp.{check_ramp_function, fine}
use pscdrv.Table.Ramp.Points.{IsRamp, check_ramp_function-IsRamp}
use pscdrv.Table.Pack.{code, sub10k_pack}
use pscdrv.Table.Pack.Words.{get_or-sub10k_pack}
use pscdrv.Table.Update.{Room, proc_update_target}
use pscdrv.Table.Update.Accepted.{proc_update_target-IsRamp}

abbrev whole : Floating
whole = whole_numbers 10

-- A small ramp, and the status message that says bipolar.
abbrev ramp : List ℕ
ramp = 1 ∷ 2 ∷ 3 ∷ 2 ∷ []

check_ramp_function-IsRamp_example :
    (check_ramp_function whole false 1 2 ramp (1 ∷ 2 ∷ 3 ∷ 2 ∷ []) ≡ fine)
    ↔ IsRamp whole false 1 2 (1 ∷ 2 ∷ 3 ∷ 2 ∷ 1 ∷ 2 ∷ [])
check_ramp_function-IsRamp_example =
    check_ramp_function-IsRamp whole false 1 2 ramp (3 ∷ 2 ∷ []) 1 2

get_or-sub10k_pack_example :
    get_or (sub10k_pack whole little true ramp) (4 * 2 + 3) 0
    ≡ get_or (to_be 4 (get_or (map (code whole true) ramp) (min 2 (length ramp - 1)) 0)) 3 0
get_or-sub10k_pack_example =
    get_or-sub10k_pack whole true little ramp 2 3 (omega arith) (omega arith) (omega arith)
      (omega arith) (omega arith)

-- A transient table from the second point on, along a straight line.
abbrev line : List (List ℕ) → List ℕ → List ℕ
line a b = 0 ∷ 0 ∷ 0 ∷ 0 ∷ 1 ∷ 5 ∷ []

abbrev control : Controller ℕ
control = record {
  bid = 50;
  next_tr = 0 ∷ 0 ∷ 0 ∷ [];
  next_tg = 8 ∷ 9 ∷ 10 ∷ [];
  prev_tg = 5 ∷ 6 ∷ 7 ∷ [];
  curmode = 2;
  max_delta1 = 9;
  max_delta2 = 9;
  start_point = 1;
  alarm_bits = 0;
  scans = 0;
}

abbrev env : Env
env = record { host = little; clock = λ n. some n; inactivity_time = 5; max_send_buffer = 0 }

abbrev session : Session
session = record {
  input = [];
  output = [];
  enabled = true;
  low = 8;
  high = min_max_buf_size;
  timeout_read = some 5;
  timeout_write = some 5;
}

-- The status message, which says bipolar.
abbrev status : Block
status = record {
  code = 64;
  data_bytes = replicate 44 0;
  queued = false;
  listeners = [];
  count = 1;
  rxtime = 0;
}

abbrev supply : Psc
supply = record {
  mask = 3;
  connected = true;
  session = some session;
  timer_active = false;
  dec = idle_decoder;
  ukncount = 0;
  conncount = 1;
  sendbuf = [];
  send_blocks = [];
  recv_blocks = (64, status) ∷ [];
  message = "Connected";
  readings = 0;
  log = [];
}

abbrev room : Room
room = record { fits = true; moved = true }

abbrev zeros : ℕ → ℕ
zeros i = 0

proc_update_target-IsRamp_example : IsRamp whole false 9 9 (1 ∷ 2 ∷ 3 ∷ 2 ∷ 1 ∷ 2 ∷ [])
unfolding proc_update_target htonl
proc_update_target-IsRamp_example =
    proc_update_target-IsRamp whole line zeros zeros 0 env 0 room room ramp control supply none
      (record {
        control = record control {
          next_tg = ramp;
          prev_tg = 5 ∷ 6 ∷ 7 ∷ 0 ∷ [];
          next_tr = 0 ∷ 0 ∷ 0 ∷ 0 ∷ [];
          scans = 1;
        };
        tx = supply;
        rx = none;
      })
      refl

abbrev immediate : Controller ℕ
immediate = record control { curmode = 0 }
