-- ===== src/Psc/Queue.antt =====
-- The send queue: `sendbuf` holds whole messages, one for each block that is marked as queued.
use mathlib.Core.List.{append_assoc, append-nil}
use pscdrv.Common.{
  ℕ, List, [], ◌∷◌, ◌++◌, length, take, take_all, Bool, true, false, ◌||◌, none, some, ◌≡◌, refl,
  sym, subst, ◌∙◌, ◌≢◌, ◌⊎◌, Bool-cases, ap, ◌<◌, ◌^◌, ◌%◌, ◌==◌, lookup, insert, lookup-insert,
  arith, Option-cases, inl, inr,
}
use pscdrv.Wire.{Endian, little, big, htons, htonl}
use pscdrv.Block.{Block, BlockMap, incr32, new_block}
use pscdrv.Outcome.{Result, ok, threw, aborted, faulted, Error}
use pscdrv.Recv.Frames.{Message, header_bytes, encode, encode_all}
use pscdrv.Psc.State.{Env, Psc, get_send}
use pscdrv.Psc.Send.{header_buf, queue_block, queue_send}

header_buf-eq :
    (host : Endian) (code len : ℕ)
    → code < 2 ^ 16
    → len < 2 ^ 32
    → header_buf host code len ≡ header_bytes code len
unfolding header_buf htons htonl
header_buf-eq little code len h k = ground arith
header_buf-eq big code len h k = refl

abbrev pub has_id : ℕ → List Message → Bool
has_id c [] = false
has_id c (m ∷ ms) = c == m.id || has_id c ms

abbrev pub is_queued : ℕ → BlockMap → Bool
is_queued c bs = elim (lookup c bs) [ none ↦ false | some b ↦ b.queued ]

-- `ms` are the messages in the buffer, in order: a block is marked exactly when one of them has its
-- code. Each block has the code of its place in the map.
pub record Queued (ms : List Message) (p : Psc) : Type 0 where
  pub buffer : p.sendbuf ≡ encode_all ms
  pub marked : (c : ℕ) → is_queued c p.send_blocks ≡ has_id c ms
  pub keyed : (c : ℕ) (b : Block) → lookup c p.send_blocks ≡ some b → b.code ≡ c

encode_all-snoc :
    (ms : List Message) (m : Message) → encode_all (ms ++ (m ∷ [])) ≡ encode_all ms ++ encode m
encode_all-snoc [] m = append-nil (encode m)
encode_all-snoc (n ∷ ms) m =
    ap (◌++◌ (encode n)) (encode_all-snoc ms m)
    ∙ sym (append_assoc (encode n) (encode_all ms) (encode m))

has_id-snoc :
    (c : ℕ) (ms : List Message) (m : Message)
    → has_id c (ms ++ (m ∷ [])) ≡ (has_id c ms || c == m.id)
has_id-snoc c [] m = ground arith
has_id-snoc c (n ∷ ms) m = ground (arith, has_id-snoc c ms m)

module _ (env : Env) (fits : Bool) (id : ℕ) (buf : List ℕ) (p : Psc) where
  abbrev pub new_message : Message
  new_message = record { id = id; body = buf }

  -- The state after a successful call.
  abbrev pub enqueued : Block → Psc
  enqueued b = record p {
    sendbuf =
        p.sendbuf
        ++ header_buf env.host b.code (length buf % 2 ^ 32)
        ++ take (length buf % 2 ^ 32) buf;
    send_blocks = insert id (record b { queued = true; count = incr32 b.count }) p.send_blocks;
  }

  pub queue_block_ok :
      (q : Psc)
      → p.connected ≡ true
      → queue_block env fits id buf p ≡ ok q
      → (b : Block) × (lookup id p.send_blocks ≡ some b) × (b.queued ≡ false) × (q ≡ enqueued b)
  unfolding queue_block
  queue_block_ok q c e = elim (Option-cases (lookup id p.send_blocks)) [
    | inl n ↦ absurd (ground arith)
    | inr (b, s) ↦ (b, s, ground arith, ground arith)
  ]

  enqueued-buffer :
      (ms : List Message) (b : Block)
      → id < 2 ^ 16
      → length buf < 2 ^ 32
      → b.code ≡ id
      → p.sendbuf ≡ encode_all ms
      → (enqueued b).sendbuf ≡ encode_all (ms ++ (new_message ∷ []))
  enqueued-buffer ms b h k code v =
      let len : length buf % 2 ^ 32 ≡ length buf = omega arith in
      rw
        (
          len,
          code,
          header_buf-eq env.host id (length buf) h k,
          take_all (length buf) buf (omega arith),
          v,
        )
        (append_assoc (encode_all ms) (header_bytes id (length buf)) buf
          ∙ sym (encode_all-snoc ms new_message))

  enqueued-Queued :
      (ms : List Message) (b : Block)
      → id < 2 ^ 16
      → length buf < 2 ^ 32
      → lookup id p.send_blocks ≡ some b
      → Queued ms p
      → Queued (ms ++ (new_message ∷ [])) (enqueued b)
  enqueued-Queued ms b h k here v =
      let b' : Block = record b { queued = true; count = incr32 b.count } in
      record {
        buffer = enqueued-buffer ms b h k (v.keyed id b here) v.buffer;
        marked = λ c.
            ground (
              arith,
              lookup-insert id c b' p.send_blocks,
              v.marked c,
              has_id-snoc c ms new_message,
            );
        keyed = λ c d found.
            ground (arith, lookup-insert id c b' p.send_blocks, v.keyed c d, v.keyed id b here);
      }

-- What a `queueSend` by message ID leaves, by how it ends: one more message in the buffer, of a block
-- that had none there; or, thrown or not connected, the messages that were there.
abbrev pub AfterQueue : List Message → Message → Psc → Result Psc → Type 0
AfterQueue ms m p (ok q) =
    ((p.connected ≡ true) × (has_id m.id ms ≡ false) × Queued (ms ++ (m ∷ [])) q)
    ⊎ ((p.connected ≡ false) × Queued ms q)
AfterQueue ms m p (threw e q) = Queued ms q
AfterQueue ms m p aborted = ⊥
AfterQueue ms m p faulted = ⊥

get_send-Queued :
    (junk id : ℕ) (ms : List Message) (p : Psc) → Queued ms p → Queued ms (get_send junk id p)
unfolding get_send
get_send-Queued junk id ms p v = record {
  buffer = v.buffer;
  marked = λ c. ground (arith, lookup-insert id c (new_block junk id) p.send_blocks, v.marked c);
  keyed = λ c d found.
      ground (arith, lookup-insert id c (new_block junk id) p.send_blocks, v.keyed c d);
}

pub get_send-found : (junk id : ℕ) (p : Psc) → lookup id (get_send junk id p).send_blocks ≢ none
unfolding get_send
get_send-found junk id p e = ground (arith, lookup-insert id id (new_block junk id) p.send_blocks)

queue_block-threw :
    (env : Env) (fits : Bool) (id : ℕ) (buf : List ℕ) (p : Psc)
    → lookup id p.send_blocks ≢ none
    → (queue_block env fits id buf p ≢ aborted)
      × (queue_block env fits id buf p ≢ faulted)
      × ((x : Error) (q : Psc) → queue_block env fits id buf p ≡ threw x q → q ≡ p)
      × ((q : Psc) → p.connected ≡ false → queue_block env fits id buf p ≡ ok q → q ≡ p)
unfolding queue_block
queue_block-threw env fits id buf p h =
    (λ e. ground arith, λ e. ground arith, λ x q e. ground arith, λ q c e. ground arith)

pub queue_block-AfterQueue :
    (env : Env) (fits : Bool) (id : ℕ) (buf : List ℕ) (ms : List Message) (p : Psc) (r : Result Psc)
    → id < 2 ^ 16
    → length buf < 2 ^ 32
    → lookup id p.send_blocks ≢ none
    → Queued ms p
    → queue_block env fits id buf p ≡ r
    → AfterQueue ms (record { id = id; body = buf }) p r
queue_block-AfterQueue env fits id buf ms p (ok q) h k there v e = elim (Bool-cases p.connected) [
  | inl c ↦
      let (b, here, free, is) = queue_block_ok env fits id buf p q c e in
      inl (
        c,
        ground (arith, v.marked id),
        subst (Queued _) (sym is) (enqueued-Queued env fits id buf p ms b h k here v),
      )
  | inr c ↦ inr (c, subst (Queued ms) (sym ((queue_block-threw env fits id buf p there).3 q c e)) v)
]
queue_block-AfterQueue env fits id buf ms p (threw x q) h k there v e =
    subst (Queued ms) (sym ((queue_block-threw env fits id buf p there).2 x q e)) v
queue_block-AfterQueue env fits id buf ms p aborted h k there v e =
    (queue_block-threw env fits id buf p there).0 e
queue_block-AfterQueue env fits id buf ms p faulted h k there v e =
    (queue_block-threw env fits id buf p there).1 e

-- `queueSend` by message ID, of a body below 2 ^ 32 bytes, keeps the send buffer a sequence of whole
-- messages of the protocol, one for each block that is marked as queued. It adds the message if it
-- returns on a connected PSC, and then none of that ID was waiting; if it throws, or if the PSC is
-- not connected, the waiting messages stay as they were. It uses no null pointer.
pub queue_send-Queued :
    (env : Env) (junk : ℕ) (fits : Bool) (id : ℕ) (buf : List ℕ) (ms : List Message) (p : Psc)
    → id < 2 ^ 16
    → length buf < 2 ^ 32
    → Queued ms p
    → AfterQueue ms (record { id = id; body = buf }) p (queue_send env junk fits id buf p)
unfolding queue_send get_send
queue_send-Queued env junk fits id buf ms p h k v =
    queue_block-AfterQueue env fits id buf ms (get_send junk id p) _ h k (get_send-found junk id p)
      (get_send-Queued junk id ms p v) refl
