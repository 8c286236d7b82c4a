-- ===== src/Psc/Flush.antt =====
-- `flushSend`: the queue goes out.
use mathlib.Core.List.{append-nil}
use pscdrv.Common.{
  ℕ, List, [], ◌∷◌, ◌++◌, Bool, true, false, Option, none, some, ◌≡◌, refl, ◌⊎◌, inl, inr, lookup,
  arith, Option-cases, Bool-cases, All, ap, ◌∙◌, sym, subst, ltb, leb, ◌&&◌, length,
}
use pscdrv.Block.{Block, BlockMap}
use pscdrv.Wire.{Endian}
use pscdrv.Outcome.{Result, ok, threw, aborted, faulted, default_alarm, runtime_error, Error}
use pscdrv.Recv.{Rx, receive}
use pscdrv.Recv.Frames.{Message, IsMessage, encode_all, deliver_all, IsIdle, receive-encode_all}
use pscdrv.Psc.State.{Env, Psc, Session}
use pscdrv.Psc.Send.{queue_block, unqueue_all, flush_send}
use pscdrv.Psc.Queue.{Queued, has_id}

lookup-unqueue_all :
    (c : ℕ) (bs : BlockMap)
    → lookup c (unqueue_all bs)
      ≡ elim (lookup c bs) [ none ↦ none | some b ↦ some (record b { queued = false }) ]
unfolding unqueue_all
lookup-unqueue_all c [] = refl
lookup-unqueue_all c ((k, b) ∷ bs) = ground (arith, lookup-unqueue_all c bs)

-- The state after a successful call on a session.
abbrev pub flushed : Session → Psc → Psc
flushed s p = record p {
  session = some (record s { output = s.output ++ p.sendbuf });
  sendbuf = [];
  send_blocks = unqueue_all p.send_blocks;
}

pub flushed-Queued :
    (s : Session) (ms : List Message) (p : Psc) → Queued ms p → Queued [] (flushed s p)
flushed-Queued s ms p v = record {
  buffer = refl;
  marked = λ c. ground (arith, lookup-unqueue_all c p.send_blocks);
  keyed = λ c b e. keyed_as c b e (Option-cases (lookup c p.send_blocks));
}
  where
    keyed_as :
        (c : ℕ) (b : Block)
        → lookup c (unqueue_all p.send_blocks) ≡ some b
        → (lookup c p.send_blocks ≡ none) ⊎ ((d : Block) × (lookup c p.send_blocks ≡ some d))
        → b.code ≡ c
    keyed_as c b e (inl n) = ground (arith, lookup-unqueue_all c p.send_blocks)
    keyed_as c b e (inr (d, f)) = ground (arith, lookup-unqueue_all c p.send_blocks, v.keyed c d f)

-- How a flush of a connected PSC ends: the messages are at the end of the session's output and no
-- block is marked; or it throws, and nothing has changed but, if libevent refused, an empty buffer.
abbrev pub AfterFlush : Bool → List Message → Session → Psc → Result Psc → Type 0
AfterFlush moved ms s p (ok q) =
    (q.session ≡ some (record s { output = s.output ++ encode_all ms })) × Queued [] q
AfterFlush moved ms s p (threw e q) = (q ≡ p) ⊎ ((moved ≡ false) × (q ≡ record p { sendbuf = [] }))
AfterFlush moved ms s p aborted = ⊥
AfterFlush moved ms s p faulted = ⊥

abbrev pub is_full : Env → Session → Bool
is_full env s = ltb 0 env.max_send_buffer && leb env.max_send_buffer (length s.output)

pub flush_send-cases :
    (env : Env) (moved : Bool) (s : Session) (p : Psc)
    → p.connected ≡ true
    → p.session ≡ some s
    → (flush_send env moved p ≡ ok (flushed s p))
      ⊎ ((e : Error) × (flush_send env moved p ≡ threw e p))
      ⊎ ((e : Error) × (moved ≡ false)
          × (flush_send env moved p ≡ threw e (record p { sendbuf = [] })))
unfolding flush_send
flush_send-cases env moved s p c e = elim (Bool-cases (is_full env s)) [
  | inl f ↦ inr (inl (runtime_error "Sending message would exceed buffer", ground arith))
  | inr f ↦ elim (Bool-cases moved) [
    | inl m ↦ inl (ground arith)
    | inr m ↦ inr (inr (runtime_error "Unable to send messages!", m, ground arith))
  ]
]

-- On a connected PSC `flushSend` hands every waiting message over to the session, whole and in order,
-- and clears every mark; or it throws.
pub flush_send-AfterFlush :
    (env : Env) (moved : Bool) (ms : List Message) (s : Session) (p : Psc)
    → p.connected ≡ true
    → p.session ≡ some s
    → Queued ms p
    → AfterFlush moved ms s p (flush_send env moved p)
flush_send-AfterFlush env moved ms s p c e v = elim (flush_send-cases env moved s p c e) [
  | inl h ↦
      rw h
        (ap (λ xs. some (record s { output = s.output ++ xs })) v.buffer, flushed-Queued s ms p v)
  | inr (inl (x, h)) ↦ rw h (inl refl)
  | inr (inr (x, m, h)) ↦ rw h (inr (m, refl))
]

-- When libevent refuses the move on a connected PSC whose session has room, the waiting messages
-- are gone but their blocks stay marked: every `queueSend` of such a block from then on throws, as
-- though its message still waited.
refused_flush_blocks :
    (env : Env) (fits : Bool) (ms : List Message) (s : Session) (p : Psc) (id : ℕ) (buf : List ℕ)
    → p.connected ≡ true
    → p.session ≡ some s
    → is_full env s ≡ false
    → Queued ms p
    → has_id id ms ≡ true
    → let q = record p { sendbuf = [] } in
      (flush_send env false p ≡ threw (runtime_error "Unable to send messages!") q)
      × (queue_block env fits id buf q ≡ threw default_alarm q)
unfolding flush_send queue_block
refused_flush_blocks env fits ms s p id buf c e f v h = (ground arith, ground (arith, v.marked id))

-- What a flush hands over to a session with nothing left to send, a decoder of the protocol between
-- messages takes apart into the messages that were queued: their bodies reach its blocks in order.
flush_send-receive :
    (env : Env) (host : Endian) (clock : ℕ → Option ℕ) (ms : List Message) (s : Session) (p q : Psc)
    (r : Rx)
    → p.connected ≡ true
    → p.session ≡ some s
    → s.output ≡ []
    → Queued ms p
    → All IsMessage ms
    → IsIdle r
    → flush_send env true p ≡ ok q
    → (t : Session) × (q.session ≡ some t)
      × (receive host clock (record r { input = t.output })
          ≡ receive host clock (record (deliver_all clock ms r) { input = [] }))
flush_send-receive env host clock ms s p q r c e empty v all idle f =
    let after = subst (AfterFlush true ms s p) f (flush_send-AfterFlush env true ms s p c e v) in
    (
      record s { output = s.output ++ encode_all ms },
      after.0,
      rw empty (
          ap (λ xs. receive host clock (record r { input = xs })) (sym (append-nil (encode_all ms)))
          ∙ receive-encode_all host clock ms [] r all idle),
    )
