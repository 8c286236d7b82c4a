-- ===== src/Psc/Live.antt =====
-- The connection of a PSC never dies: whatever the network does, a session exists or the timer of
-- the next attempt runs, until `stop`.
use pscdrv.Common.{
  ℕ, List, ◌++◌, Bool, true, false, none, some, String, ◌≡◌, refl, ◌⊎◌, ◌≢◌, inl, inr, arith,
  lookup-insert,
}
use pscdrv.Outcome.{Result, ok, threw, aborted, faulted}
use pscdrv.Recv.{Decoder, Rx, Outcome, more, waiting, framing, failed, stuck, header_size, receive}
use pscdrv.Recv.Rounds.{IsReady, Runs, EndsWell, receive-EndsWell}
use pscdrv.Psc.State.{Env, Psc, Session}
use pscdrv.Block.{new_block}
use pscdrv.Psc.Send.{queue_send, flush_send}
use pscdrv.Psc.Link.{
  Attempt, Events, force_reconnect, load_rx, after_loop, bev_eventcb, bev_datacb, bev_reconnect,
  caught, stop,
}

-- The decoder is between messages, or between a header and its body.
abbrev pub DecoderReady : Decoder → Type 0
DecoderReady d =
    ((d.have_head ≡ false) × (d.expect ≡ header_size))
    ⊎ ((d.have_head ≡ true) × (d.expect ≡ d.bodylen))

-- A session and no timer, or a timer and no session; connected only with a session.
abbrev pub IsLive : Psc → Type 0
IsLive p =
    ((p.session ≡ none) × (p.timer_active ≡ true) × (p.connected ≡ false))
    ⊎ ((s : Session) × (p.session ≡ some s) × (p.timer_active ≡ false) × DecoderReady p.dec)

-- What happens to a PSC from outside.
pub data Happening : Type 0 where
  timer : Attempt → Happening
  event : Events → String → Happening
  arrive : List ℕ → Happening
  force : Happening
  queue : ℕ → Bool → ℕ → List ℕ → Happening
  flush : Bool → Happening

-- Bytes arrive in the receive buffer before `bev_datacb` is called.
abbrev pub arrived : List ℕ → Psc → Psc
arrived ys p = elim p.session [
  | none ↦ p
  | some s ↦ record p { session = some (record s { input = s.input ++ ys }) }
]

unfoldable pub handle : Env → Happening → Psc → Result Psc
handle env (timer att) p = bev_reconnect env att p
handle env (event ev text) p = bev_eventcb ev text p
handle env (arrive ys) p = bev_datacb env (arrived ys p)
handle env force p = force_reconnect p
handle env (queue junk fits id buf) p = caught (queue_send env junk fits id buf p)
handle env (flush moved) p = caught (flush_send env moved p)

-- When the library calls: the timer if it runs (and then the session can be allocated), an event
-- for a session, data for a session that is connected.
abbrev pub CanHappen : Happening → Psc → Type 0
CanHappen (timer att) p = (p.timer_active ≡ true) × (att.allocated ≡ true)
CanHappen (event ev text) p = p.session ≢ none
CanHappen (arrive ys) p = (p.session ≢ none) × (p.connected ≡ true)
CanHappen force p = Unit
CanHappen (queue junk fits id buf) p = Unit
CanHappen (flush moved) p = Unit

-- A body of 0 bytes was announced in the bytes that the decoder had.
abbrev pub ZeroBody : Env → Psc → Type 0
ZeroBody env p =
    (s : Session) × (r : Rx) × (p.session ≡ some s)
    × Runs env.host env.clock (load_rx p s) r
    × (r.have_head ≡ true)
    × (r.bodylen ≡ 0)

abbrev pub Survives : Env → Psc → Happening → Result Psc → Type 0
Survives env p h (ok q) = IsLive q
Survives env p (arrive ys) aborted = ZeroBody env (arrived ys p)
Survives env p (timer att) aborted = ⊥
Survives env p (event ev text) aborted = ⊥
Survives env p force aborted = ⊥
Survives env p (queue junk fits id buf) aborted = ⊥
Survives env p (flush moved) aborted = ⊥
Survives env p h (threw e q) = ⊥
Survives env p h faulted = ⊥

abbrev pub LiveResult : Result Psc → Type 0
LiveResult (ok q) = IsLive q
LiveResult (threw e q) = ⊥
LiveResult aborted = ⊥
LiveResult faulted = ⊥

timer-live :
    (env : Env) (att : Attempt) (p : Psc)
    → IsLive p
    → p.timer_active ≡ true
    → att.allocated ≡ true
    → LiveResult (bev_reconnect env att p)
unfolding bev_reconnect
timer-live env att p live t a = ground arith

event-live :
    (ev : Events) (text : String) (p : Psc)
    → IsLive p
    → p.session ≢ none
    → LiveResult (bev_eventcb ev text p)
unfolding bev_eventcb
event-live ev text p live here = ground arith

force-live : (p : Psc) → IsLive p → LiveResult (force_reconnect p)
unfolding force_reconnect
force-live p live = ground arith

queue-live :
    (env : Env) (junk : ℕ) (fits : Bool) (id : ℕ) (buf : List ℕ) (p : Psc)
    → IsLive p
    → LiveResult (caught (queue_send env junk fits id buf p))
unfolding queue_send
queue-live env junk fits id buf p live =
    ground (arith, lookup-insert id id (new_block junk id) p.send_blocks)

flush-live :
    (env : Env) (moved : Bool) (p : Psc) → IsLive p → LiveResult (caught (flush_send env moved p))
unfolding flush_send
flush-live env moved p live = ground arith

-- The loop ended as it may: the watermark is set, or a reconnect is begun.
abbrev DataResult : Env → Psc → Result Psc → Type 0
DataResult env p (ok q) = IsLive q
DataResult env p aborted = ZeroBody env p
DataResult env p (threw e q) = ⊥
DataResult env p faulted = ⊥

after_loop-live :
    (env : Env) (p : Psc) (s : Session) (o : Outcome)
    → p.session ≡ some s
    → p.timer_active ≡ false
    → EndsWell env.host env.clock (load_rx p s) o
    → DataResult env p (caught (after_loop o s p))
unfolding after_loop
after_loop-live env p s (more r) e t h = absurd h
after_loop-live env p s (waiting r) e t h = inr (_, refl, t, h.1)
after_loop-live env p s (framing r) e t h = ground arith
after_loop-live env p s failed e t h = (s, h.0, e, h.1, h.2, h.3)
after_loop-live env p s stuck e t h = absurd h

bev_datacb-eq :
    (env : Env) (p : Psc) (s : Session)
    → p.session ≡ some s
    → p.connected ≡ true
    → bev_datacb env p ≡ caught (after_loop (receive env.host env.clock (load_rx p s)) s p)
unfolding bev_datacb
bev_datacb-eq env p s e c = ground arith

load_rx-IsReady : (p : Psc) (s : Session) → DecoderReady p.dec → IsReady (load_rx p s)
unfolding load_rx
load_rx-IsReady p s h = h

data-live :
    (env : Env) (p : Psc) (s : Session)
    → p.session ≡ some s
    → p.connected ≡ true
    → p.timer_active ≡ false
    → DecoderReady p.dec
    → DataResult env p (bev_datacb env p)
data-live env p s e c t ready = rw (bev_datacb-eq env p s e c) (
    after_loop-live env p s _ e t
      (receive-EndsWell env.host env.clock (load_rx p s) (load_rx-IsReady p s ready)))

arrive-live :
    (env : Env) (ys : List ℕ) (p : Psc)
    → IsLive p
    → p.connected ≡ true
    → DataResult env (arrived ys p) (bev_datacb env (arrived ys p))
arrive-live env ys p (inl (n, t, c)) e = ground arith
arrive-live env ys p (inr (s, here, t, ready)) c =
    let q = arrived ys p in
    data-live env q (record s { input = s.input ++ ys }) (ground arith) (ground arith)
      (ground arith) (ground arith)

LiveResult-Survives :
    (env : Env) (h : Happening) (p : Psc) (r : Result Psc) → LiveResult r → Survives env p h r
LiveResult-Survives env h p (ok q) l = l
LiveResult-Survives env h p (threw e q) l = absurd l
LiveResult-Survives env h p aborted l = absurd l
LiveResult-Survives env h p faulted l = absurd l

DataResult-Survives :
    (env : Env) (ys : List ℕ) (p : Psc) (r : Result Psc)
    → DataResult env (arrived ys p) r
    → Survives env p (arrive ys) r
DataResult-Survives env ys p (ok q) l = l
DataResult-Survives env ys p (threw e q) l = l
DataResult-Survives env ys p aborted l = l
DataResult-Survives env ys p faulted l = l

-- While sessions can be allocated, a live PSC stays live through every happening that can come to
-- it: no assertion of the connection code fails and no null pointer is used. The one way to stop
-- it is a message with a body of 0 bytes, on which an assertion of the decoder fails.
pub handle-IsLive :
    (env : Env) (h : Happening) (p : Psc)
    → IsLive p
    → CanHappen h p
    → Survives env p h (handle env h p)
unfolding handle
handle-IsLive env (timer att) p live can =
    LiveResult-Survives env (timer att) p _ (timer-live env att p live can.0 can.1)
handle-IsLive env (event ev text) p live can =
    LiveResult-Survives env (event ev text) p _ (event-live ev text p live can)
handle-IsLive env (arrive ys) p live can =
    DataResult-Survives env ys p _ (arrive-live env ys p live can.1)
handle-IsLive env force p live can = LiveResult-Survives env force p _ (force-live p live)
handle-IsLive env (queue junk fits id buf) p live can =
    LiveResult-Survives env (queue junk fits id buf) p _ (queue-live env junk fits id buf p live)
handle-IsLive env (flush moved) p live can =
    LiveResult-Survives env (flush moved) p _ (flush-live env moved p live)

-- `stop` on a connected PSC leaves it connected without a session: a flush then uses a null pointer,
-- and a forced reconnect fails an assertion.
stop_leaves_connected :
    (env : Env) (moved : Bool) (p q : Psc)
    → p.connected ≡ true
    → stop p ≡ ok q
    → (q.connected ≡ true) × (flush_send env moved q ≡ faulted) × (force_reconnect q ≡ aborted)
unfolding stop flush_send force_reconnect
stop_leaves_connected env moved p q c e = ground arith
