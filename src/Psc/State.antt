-- ===== src/Psc/State.antt =====
-- The state of a `PSC`: the fields of `PSCBase` and `PSC` in coreApp/src/psc/device.h, the libevent
-- session they point to, and their initial values (coreApp/src/pscbase.cpp, coreApp/src/psc.cpp).
use pscdrv.Common.{ℕ, List, [], Bool, false, Option, none, String, ◌*◌}
use pscdrv.Wire.{Endian}
use pscdrv.Block.{BlockMap, Effect, get_block}
use pscdrv.Recv.{Decoder, idle_decoder}

-- The machine, and the variables of coreApp/src/pscbase.cpp that the shell sets. These are ints that
-- the code compares with 0: a value of 0 stands for one below it too. `clock n` is the n-th reading
-- of the clock; `none` is a reading that throws.
pub record Env : Type 0 where
  pub host : Endian
  pub clock : ℕ → Option ℕ
  pub inactivity_time : ℕ
  pub max_send_buffer : ℕ

-- What a `bufferevent` holds of what the driver sees: its buffers, whether it is enabled, its read
-- watermarks and its timeouts in seconds.
pub record Session : Type 0 where
  pub input : List ℕ
  pub output : List ℕ
  pub enabled : Bool
  pub low : ℕ
  pub high : ℕ
  pub timeout_read : Option ℕ
  pub timeout_write : Option ℕ

-- `readings` counts the readings of the clock, and `log` lists what was asked of the scan system
-- and of the listeners. The immutable name, host and port are left out.
pub record Psc : Type 0 where
  pub mask : ℕ
  pub connected : Bool
  pub session : Option Session
  pub timer_active : Bool
  pub dec : Decoder
  pub ukncount : ℕ
  pub conncount : ℕ
  pub sendbuf : List ℕ
  pub send_blocks : BlockMap
  pub recv_blocks : BlockMap
  pub message : String
  pub readings : ℕ
  pub log : List Effect

-- `PSCBase::PSCBase` and `PSC::PSC`, after their allocations.
unfoldable pub new_psc : ℕ → Psc
new_psc timeoutmask = record {
  mask = timeoutmask;
  connected = false;
  session = none;
  timer_active = false;
  dec = idle_decoder;
  ukncount = 0;
  conncount = 0;
  sendbuf = [];
  send_blocks = [];
  recv_blocks = [];
  message = "Initialize";
  readings = 0;
  log = [];
}

-- `PSCBase::getSend`; the returned pointer is the code.
unfoldable pub get_send : ℕ → ℕ → Psc → Psc
unfolding get_block
get_send junk code p = record p { send_blocks = get_block junk code p.send_blocks }

-- `PSCBase::getRecv`
unfoldable pub get_recv : ℕ → ℕ → Psc → Psc
unfolding get_block
get_recv junk code p = record p { recv_blocks = get_block junk code p.recv_blocks }

-- `min_max_buf_size`
abbrev pub min_max_buf_size : ℕ
min_max_buf_size = 1024 * 1024
