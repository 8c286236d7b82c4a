-- ===== src/Psc/Link.antt =====
-- The connection of a `PSC`: `connect`, `start_reconnect`, `reconnect`, `forceReConnect`, `stop`,
-- `eventcb` and `recvdata` of coreApp/src/psc.cpp, and the callbacks of coreApp/src/pscwrap.cpp.
use Prim.Native.String
use pscdrv.Common.{
  ℕ, [], ◌∷◌, ◌++◌, Bool, true, false, not, ◌&&◌, ◌||◌, none, some, String, leb, ltb, ◌==◌,
  if◌then◌else◌, ◌+◌, ◌%◌,
}
use pscdrv.Block.{scan_status, incr32}
use pscdrv.Outcome.{Result, ok, threw, aborted, faulted, bad_alloc, ◌>>=◌}
use pscdrv.Recv.{
  Rx, Outcome, more, waiting, framing, failed, stuck, idle_decoder, header_size, receive,
}
use pscdrv.Psc.State.{Env, Psc, Session, min_max_buf_size}

-- How libevent answers while a connection is begun: whether it allocates the session, and whether
-- it starts to connect. A refusal of the timeouts is only logged.
pub record Attempt : Type 0 where
  pub allocated : Bool
  pub timeouts_set : Bool
  pub started : Bool

unfoldable pub new_session : Env → Bool → ℕ → Session
new_session env timeouts_set mask =
    let timeo =
      if ltb 0 env.inactivity_time && timeouts_set then some env.inactivity_time else none in
    record {
      input = [];
      output = [];
      enabled = false;
      low = header_size;
      high = min_max_buf_size;
      timeout_read = if mask % 2 == 1 then timeo else none;
      timeout_write = timeo;
    }

-- `PSC::connect`
unfoldable pub connect : Env → Attempt → Psc → Result Psc
unfolding new_session
connect env att p =
    let q = record p { dec = idle_decoder } in
    if p.connected then aborted else elim p.session [
      | some _ ↦ aborted
      | none ↦
          if p.timer_active
          then aborted
          else if not att.allocated
          then threw bad_alloc q
          else if att.started
          then ok (record q {
            session = some (new_session env att.timeouts_set p.mask);
            message = "Connecting...";
            log = p.log ++ (scan_status ∷ []);
          })
          else ok (record q {
            timer_active = true;
            message = "Failed to initiate connection.";
            log = p.log ++ (scan_status ∷ []);
          })
    ]

-- `PSC::start_reconnect`
unfoldable pub start_reconnect : Psc → Result Psc
start_reconnect p = elim p.session [
  | none ↦ aborted
  | some _ ↦
      if p.timer_active
      then aborted
      else ok (record p { session = none; connected = false; timer_active = true })
]

-- `PSC::forceReConnect`
unfoldable pub force_reconnect : Psc → Result Psc
unfolding start_reconnect
force_reconnect p = if not p.connected then ok p else start_reconnect p

-- `assert(session || timer_active)`
unfoldable pub check_alive : Psc → Result Psc
check_alive p = elim p.session [ some _ ↦ ok p | none ↦ if p.timer_active then ok p else aborted ]

-- `PSC::reconnect`
unfoldable pub reconnect : Env → Attempt → Psc → Result Psc
unfolding connect check_alive
reconnect env att p = if p.connected then aborted else elim p.session [
  | some _ ↦ aborted
  | none ↦ connect env att (record p { timer_active = false }) >>= check_alive
]

-- `PSC::stop`. A session that is not yet connected is dropped without being freed.
unfoldable pub stop : Psc → Result Psc
stop p =
    let q = record p { session = none; timer_active = false } in
    if p.connected then elim p.session [ none ↦ aborted | some _ ↦ ok q ] else ok q

-- The flags of a libevent event.
pub record Events : Type 0 where
  pub connected : Bool
  pub error : Bool
  pub eof : Bool
  pub timeout : Bool
  pub writing : Bool
  pub reading : Bool

-- The text of a loss; `text` is that of the socket's error.
unfoldable pub loss_message : Events → String → Bool → String
loss_message ev text was_connected =
    if ev.error
    then String.◌++◌ "Socket Error: " text
    else if ev.timeout
    then (if was_connected
        then String.◌++◌ (if ev.writing then "TX " else "")
            (String.◌++◌ (if ev.reading then "RX " else "") "Data Timeout")
        else "Timeout while connecting")
    else "Connection closed by PSC"

-- `PSC::eventcb`
unfoldable pub eventcb : Events → String → Psc → Result Psc
unfolding start_reconnect loss_message
eventcb ev text p =
    if ev.connected
    then (elim p.session [
      | none ↦ faulted
      | some s ↦ ok (record p {
        session = some (record s { enabled = true });
        connected = true;
        message = "Connected";
        conncount = incr32 p.conncount;
        log = p.log ++ (scan_status ∷ []);
      })
    ])
    else if ev.error || ev.eof || ev.timeout
    then (start_reconnect p >>= λ q. ok (record q {
      message = loss_message ev text p.connected;
      log = q.log ++ (scan_status ∷ []);
    }))
    else ok p

-- What the loop of `recvdata` sees of the object, and what it leaves there.
unfoldable pub load_rx : Psc → Session → Rx
load_rx p s = record {
  dec = p.dec;
  input = s.input;
  recv_blocks = p.recv_blocks;
  ukncount = p.ukncount;
  readings = p.readings;
  log = p.log;
}

unfoldable pub store_rx : Rx → Session → Psc → Psc
store_rx r s p = record p {
  dec = r.dec;
  session = some (record s { input = r.input });
  recv_blocks = r.recv_blocks;
  ukncount = r.ukncount;
  readings = r.readings;
  log = r.log;
}

-- `bufferevent_setwatermark` at the end of `recvdata`
unfoldable pub set_watermark : ℕ → Session → Session
set_watermark expect s = record s {
  low = expect;
  high = if leb min_max_buf_size expect then expect + 1 else min_max_buf_size;
}

-- What follows the loop.
unfoldable pub after_loop : Outcome → Session → Psc → Result Psc
unfolding store_rx set_watermark start_reconnect
after_loop (waiting r) s p = ok (store_rx r (set_watermark r.expect s) p)
after_loop (framing r) s p = start_reconnect (store_rx r s p) >>= λ q.
    ok (record q { message = "Framing error!"; log = q.log ++ (scan_status ∷ []) })
after_loop (more r) s p = aborted
after_loop failed s p = aborted
after_loop stuck s p = aborted

-- `PSC::recvdata`
unfoldable pub recvdata : Env → Psc → Result Psc
unfolding load_rx after_loop
recvdata env p = elim p.session [
  | none ↦ aborted
  | some s ↦
      if not p.connected then aborted else after_loop (receive env.host env.clock (load_rx p s)) s p
]

-- The callbacks catch what a method throws and log it; `BEVGuard` locks the session first.
abbrev pub caught : Result Psc → Result Psc
caught (ok q) = ok q
caught (threw e q) = ok q
caught aborted = aborted
caught faulted = faulted

unfoldable pub bev_eventcb : Events → String → Psc → Result Psc
unfolding eventcb
bev_eventcb ev text p = elim p.session [ none ↦ faulted | some _ ↦ caught (eventcb ev text p) ]

unfoldable pub bev_datacb : Env → Psc → Result Psc
unfolding recvdata
bev_datacb env p = elim p.session [ none ↦ faulted | some _ ↦ caught (recvdata env p) ]

unfoldable pub bev_reconnect : Env → Attempt → Psc → Result Psc
unfolding reconnect
bev_reconnect env att p = caught (reconnect env att p)

unfoldable pub ioc_atexit : Psc → Result Psc
unfolding stop
ioc_atexit p = caught (stop p)
