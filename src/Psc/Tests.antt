-- ===== src/Psc/Tests.antt =====
-- The theorems on the TCP driver at concrete states.
use pscdrv.Common.{List, [], ◌∷◌, true, false, none, some, ◌≡◌, refl, inl, inr, arith}
use pscdrv.Wire.{little}
use pscdrv.Block.{Block, scan_status}
use pscdrv.Outcome.{ok}
use pscdrv.Recv.{idle_decoder, Rx}
use pscdrv.Recv.Frames.{Message, encode_all}
use pscdrv.Psc.State.{Env, Psc, Session, min_max_buf_size}
use pscdrv.Psc.Send.{queue_send, flush_send}
use pscdrv.Psc.Link.{Attempt, Events, stop}
use pscdrv.Psc.Queue.{Queued, AfterQueue, queue_send-Queued}
use pscdrv.Psc.Flush.{AfterFlush, flush_send-AfterFlush}
use pscdrv.Psc.Reached.{started}
use pscdrv.Psc.Live.{Survives, arrive, handle, handle-IsLive}

abbrev env : Env
env = record { host = little; clock = λ n. some n; inactivity_time = 5; max_send_buffer = 0 }

abbrev session : Session
session = record {
  input = [];
  output = [];
  enabled = false;
  low = 8;
  high = min_max_buf_size;
  timeout_read = some 5;
  timeout_write = some 5;
}

abbrev connecting : Psc
connecting = record {
  mask = 3;
  connected = false;
  session = some session;
  timer_active = false;
  dec = idle_decoder;
  ukncount = 0;
  conncount = 0;
  sendbuf = [];
  send_blocks = [];
  recv_blocks = [];
  message = "Connecting...";
  readings = 0;
  log = scan_status ∷ [];
}

-- One message waits, of the block 7.
abbrev block_7 : Block
block_7 = record { code = 7; data_bytes = []; queued = true; listeners = []; count = 1; rxtime = 0 }

abbrev waiting_one : List Message
waiting_one = record { id = 7; body = 5 ∷ 6 ∷ [] } ∷ []

abbrev connected : Psc
connected = record connecting {
  connected = true;
  sendbuf = encode_all waiting_one;
  send_blocks = (7, block_7) ∷ [];
}

connected-Queued : Queued waiting_one connected
connected-Queued = record {
  buffer = refl;
  marked = λ c. ground arith;
  keyed = λ c b e. ground arith;
}

abbrev attempt : Attempt
attempt = record { allocated = true; timeouts_set = true; started = true }

abbrev is_connected : Events
is_connected = record {
  connected = true;
  error = false;
  eof = false;
  timeout = false;
  writing = false;
  reading = false;
}

handle-IsLive_example :
    Survives env connected
      (arrive (b'P' ∷ b'S' ∷ 0 ∷ []))
      (handle env (arrive (b'P' ∷ b'S' ∷ 0 ∷ [])) connected)
handle-IsLive_example =
    handle-IsLive env (arrive (b'P' ∷ b'S' ∷ 0 ∷ [])) connected
      (inr (session, refl, refl, inl (refl, refl))) ((λ e. ground arith), refl)

stop_example : stop connected ≡ ok (record connected { session = none; timer_active = false })
unfolding stop
stop_example = refl

queue_send-Queued_example :
    AfterQueue waiting_one
      (record { id = 8; body = 1 ∷ [] })
      connected
      (queue_send env 0 true 8 (1 ∷ []) connected)
queue_send-Queued_example =
    queue_send-Queued env 0 true 8 (1 ∷ []) waiting_one connected (omega arith) (omega arith)
      connected-Queued

flush_send-AfterFlush_example :
    AfterFlush true waiting_one session connected (flush_send env true connected)
flush_send-AfterFlush_example =
    flush_send-AfterFlush env true waiting_one session connected refl refl connected-Queued

abbrev peer : Rx
peer = record {
  dec = idle_decoder;
  input = [];
  recv_blocks = (7, block_7) ∷ [];
  ukncount = 0;
  readings = 0;
  log = [];
}

abbrev flushed : Psc
flushed = record connected {
  session = some (record session { output = encode_all waiting_one });
  sendbuf = [];
  send_blocks = (7, record block_7 { queued = false }) ∷ [];
}

flush_to_flushed : flush_send env true connected ≡ ok flushed
unfolding flush_send
flush_to_flushed = refl
