-- ===== src/Psc/Send.antt =====
-- The sending side of `PSC`: `queueSend` and `flushSend` of coreApp/src/psc.cpp, `send` and the
-- other `queueSend` of coreApp/src/pscbase.cpp.
use pscdrv.Common.{
  ℕ, List, [], ◌∷◌, ◌++◌, length, take, lookup, insert, Bool, true, false, not, ◌&&◌, none, some,
  leb, ltb, if◌then◌else◌, ◌%◌, ◌^◌,
}
use pscdrv.Wire.{Endian, store, htons, htonl}
use pscdrv.Block.{BlockMap, incr32}
use pscdrv.Outcome.{Result, ok, threw, faulted, runtime_error, default_alarm}
use pscdrv.Psc.State.{Env, Psc, get_send}

-- `hbuf` as `queueSend` fills it.
unfoldable pub header_buf : Endian → ℕ → ℕ → List ℕ
header_buf host code buflen =
    b'P' ∷ b'S' ∷ store host 2 (htons host code) ++ store host 4 (htonl host buflen)

-- `PSC::queueSend` of the block under a code of `send_blocks`. The length is an epicsUInt32. `fits`
-- is the answer of `evbuffer_expand`, which is asked for 8 bytes more than that, modulo 2 ^ 32; the two
-- `evbuffer_add` behind it succeed, as the code says.
unfoldable pub queue_block : Env → Bool → ℕ → List ℕ → Psc → Result Psc
unfolding header_buf
queue_block env fits code buf p =
    let buflen = length buf % 2 ^ 32 in
    if not p.connected then ok p else elim (lookup code p.send_blocks) [
      | none ↦ faulted
      | some b ↦
          if b.queued
          then threw default_alarm p
          else if ltb 0 env.max_send_buffer && leb env.max_send_buffer (length p.sendbuf)
          then threw (runtime_error "Enqueuing message would exceed buffer") p
          else if not fits
          then threw (runtime_error "Unable to enqueue message.  Insufficient memory.") p
          else ok (record p {
            sendbuf = p.sendbuf ++ header_buf env.host b.code buflen ++ take buflen buf;
            send_blocks =
                insert code (record b { queued = true; count = incr32 b.count }) p.send_blocks;
          })
    ]

-- `PSCBase::queueSend(epicsUInt16, ...)`
unfoldable pub queue_send : Env → ℕ → Bool → ℕ → List ℕ → Psc → Result Psc
unfolding get_send queue_block
queue_send env junk fits id buf p = queue_block env fits id buf (get_send junk id p)

-- `PSCBase::send`
unfoldable pub send : Env → Bool → ℕ → Psc → Result Psc
unfolding queue_block
send env fits bid p = elim (lookup bid p.send_blocks) [
  | none ↦ ok p
  | some b ↦ queue_block env fits bid b.data_bytes p
]

unfoldable pub unqueue_all : BlockMap → BlockMap
unqueue_all [] = []
unqueue_all ((k, b) ∷ m) = (k, record b { queued = false }) ∷ unqueue_all m

-- `PSC::flushSend`; `moved` is the success of `evbuffer_add_buffer`.
unfoldable pub flush_send : Env → Bool → Psc → Result Psc
unfolding unqueue_all
flush_send env moved p = if not p.connected then ok p else elim p.session [
  | none ↦ faulted
  | some s ↦
      if ltb 0 env.max_send_buffer && leb env.max_send_buffer (length s.output)
      then threw (runtime_error "Sending message would exceed buffer") p
      else if not moved
      then threw (runtime_error "Unable to send messages!") (record p { sendbuf = [] })
      else ok (record p {
        session = some (record s { output = s.output ++ p.sendbuf });
        sendbuf = [];
        send_blocks = unqueue_all p.send_blocks;
      })
]
