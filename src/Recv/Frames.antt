-- ===== src/Recv/Frames.antt =====
-- The decoder against the protocol (documentation/protocol.rst): a stream of whole messages.
use mathlib.Core.List.{append_assoc}
use pscdrv.Common.{
  ℕ, List, [], ◌∷◌, ◌++◌, length, lookup, insert, resize, overwrite, ◌≡◌, refl, ◌∙◌, ap, ◌<◌, ◌^◌,
  ◌+◌, All, arith, Option, none, some, Option-cases, inl, inr, false, true, lookup-insert,
  insert-insert, length-append, take-append_length, drop-append_length, overwrite-whole,
  length-resize,
}
use pscdrv.Wire.{Endian, little, big, htons, htonl, load, to_be}
use pscdrv.Block.{Block, announce, incr32}
use pscdrv.Recv.{
  Rx, Decoder, more, waiting, header_size, time_or_zero, found_header, take_body, header_step, next,
  step, receive,
}
use pscdrv.Recv.Rounds.{receive-step}

pub record Message : Type 0 where
  pub id : ℕ
  pub body : List ℕ

-- What the protocol allows, and a body that is not empty.
pub record IsMessage (m : Message) : Type 0 where
  pub id_16 : m.id < 2 ^ 16
  pub length_32 : length m.body < 2 ^ 32
  pub some_body : 0 < length m.body

-- A message on the wire: the markers, the ID, the length of the body and the body.
abbrev pub header_bytes : ℕ → ℕ → List ℕ
header_bytes id len = b'P' ∷ b'S' ∷ to_be 2 id ++ to_be 4 len

abbrev pub encode : Message → List ℕ
encode m = header_bytes m.id (length m.body) ++ m.body

abbrev pub encode_all : List Message → List ℕ
encode_all [] = []
encode_all (m ∷ ms) = encode m ++ encode_all ms

pub decode16 : (host : Endian) (v : ℕ) → v < 2 ^ 16 → htons host (load host (to_be 2 v)) ≡ v
unfolding htons
decode16 little v h = omega arith
decode16 big v h = omega arith

pub decode32 : (host : Endian) (v : ℕ) → v < 2 ^ 32 → htonl host (load host (to_be 4 v)) ≡ v
unfolding htonl
decode32 little v h = omega arith
decode32 big v h = omega arith

overwrite-resize : (body old : List ℕ) → overwrite body (resize (length body) 0 old) ≡ body
overwrite-resize body old = overwrite-whole body _ (length-resize (length body) 0 old)

module _ (clock : ℕ → Option ℕ) where
  -- What one message does: its block gets the body, the time and one more count, and is announced;
  -- the body of an unknown message is dropped and counted.
  abbrev pub deliver : Message → Rx → Rx
  deliver m r =
      let dec : Decoder = record {
        have_head = false;
        header = m.id;
        bodylen = length m.body;
        bodyblock = none;
        expect = header_size;
      } in
      elim (lookup m.id r.recv_blocks) [
        | none ↦ record r { dec = dec; ukncount = incr32 r.ukncount }
        | some b ↦
            let b' : Block = record b {
              data_bytes = m.body;
              rxtime = time_or_zero (clock r.readings);
              count = incr32 b.count;
            } in
            record r {
              dec = dec;
              readings = r.readings + 1;
              recv_blocks = insert m.id b' r.recv_blocks;
              log = r.log ++ announce b';
            }
      ]

  abbrev pub deliver_all : List Message → Rx → Rx
  deliver_all [] r = r
  deliver_all (m ∷ ms) r = deliver_all ms (deliver m r)

-- The decoder is between messages.
abbrev pub IsIdle : Rx → Type 0
IsIdle r = (r.have_head ≡ false) × (r.expect ≡ header_size)

deliver-IsIdle : (clock : ℕ → Option ℕ) (m : Message) (r : Rx) → IsIdle (deliver clock m r)
deliver-IsIdle clock m r = ground arith

module _ (host : Endian) (clock : ℕ → Option ℕ) where
  abbrev with_input : Rx → List ℕ → Rx
  with_input r xs = record r { input = xs }

  header_step-encode :
      (m : Message) (rest : List ℕ) (r : Rx)
      → IsMessage m
      → IsIdle r
      → header_step host clock (with_input r (encode m ++ rest))
        ≡ more (found_header clock m.id (length m.body) (m.body ++ rest) r)
  unfolding header_step found_header
  header_step-encode m rest r v idle =
      ground (arith, decode16 host m.id v.id_16, decode32 host (length m.body) v.length_32)

  abbrev received : Block → ℕ → Block
  received b n = record b { rxtime = time_or_zero (clock n); count = incr32 b.count }

  length_found :
      (m : Message) (rest : List ℕ) (r : Rx)
      → (found_header clock m.id (length m.body) (m.body ++ rest) r).input ≡ m.body ++ rest
  unfolding found_header
  length_found m rest r = ground arith

  found_dec :
      (m : Message) (rest : List ℕ) (r : Rx)
      → let s = found_header clock m.id (length m.body) (m.body ++ rest) r in
        (s.have_head ≡ true) × (s.expect ≡ length m.body)
  unfolding found_header
  found_dec m rest r = ground arith

  take_body-found :
      (m : Message) (rest : List ℕ) (r : Rx)
      → take_body (found_header clock m.id (length m.body) (m.body ++ rest) r)
        ≡ with_input (deliver clock m r) rest
  unfolding take_body found_header
  take_body-found m rest r = elim (Option-cases (lookup m.id r.recv_blocks)) [
    | inl e ↦ ground (arith, drop-append_length m.body rest)
    | inr (b, e) ↦ ground (
      arith,
      take-append_length m.body rest,
      drop-append_length m.body rest,
      overwrite-resize m.body b.data_bytes,
      lookup-insert m.id m.id (received b r.readings) r.recv_blocks,
      insert-insert m.id (received b r.readings)
          (record (received b r.readings) { data_bytes = m.body }) r.recv_blocks,
    )
  ]

  step_header :
      (m : Message) (rest : List ℕ) (r : Rx)
      → IsMessage m
      → IsIdle r
      → step host clock (with_input r (encode m ++ rest))
        ≡ more (found_header clock m.id (length m.body) (m.body ++ rest) r)
  unfolding step
  step_header m rest r v idle =
      rw (header_step-encode m rest r v idle)
        (ground (arith, length_found m rest r, length-append m.body rest))

  step_body :
      (m : Message) (rest : List ℕ) (r : Rx)
      → IsMessage m
      → step host clock (found_header clock m.id (length m.body) (m.body ++ rest) r)
        ≡ more (with_input (deliver clock m r) rest)
  unfolding step
  step_body m rest r v = ground (
    arith,
    take_body-found m rest r,
    found_dec m rest r,
    length_found m rest r,
    length-append m.body rest,
    v.some_body,
  )

  receive-encode :
      (m : Message) (rest : List ℕ) (r : Rx)
      → IsMessage m
      → IsIdle r
      → receive host clock (with_input r (encode m ++ rest))
        ≡ receive host clock (with_input (deliver clock m r) rest)
  receive-encode m rest r v idle =
      rw (receive-step host clock (with_input r (encode m ++ rest)), step_header m rest r v idle)
        (receive-step host clock _ ∙ ap (next (receive host clock)) (step_body m rest r v))

-- A stream of messages of the protocol with bodies that are not empty, on a decoder between
-- messages: each message in turn gives its block the body, the time of a clock reading and one more
-- count and announces it, or counts as unknown; then the decoder goes on with the bytes behind them.
pub receive-encode_all :
    (host : Endian) (clock : ℕ → Option ℕ) (ms : List Message) (rest : List ℕ) (r : Rx)
    → All IsMessage ms
    → IsIdle r
    → receive host clock (record r { input = encode_all ms ++ rest })
      ≡ receive host clock (record (deliver_all clock ms r) { input = rest })
receive-encode_all host clock [] rest r v idle = refl
receive-encode_all host clock (m ∷ ms) rest r v idle =
    ap (λ xs. receive host clock (record r { input = xs }))
      (append_assoc (encode m) (encode_all ms) rest)
    ∙ receive-encode host clock m (encode_all ms ++ rest) r v.0 idle
    ∙ receive-encode_all host clock ms rest (deliver clock m r) v.1 (deliver-IsIdle clock m r)

-- A decoder between messages waits while nothing is there.
pub receive-empty :
    (host : Endian) (clock : ℕ → Option ℕ) (r : Rx)
    → IsIdle r
    → receive host clock (record r { input = [] }) ≡ waiting (record r { input = [] })
unfolding receive step
receive-empty host clock r idle = ground arith
