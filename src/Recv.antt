-- ===== src/Recv.antt =====
-- The RX message decoding of `PSC` (coreApp/src/psc.cpp, `PSC::recvdata`, with the fields of that
-- name in coreApp/src/psc/device.h): the loop over the receive buffer, one round as `step`.
pub mod Rounds
pub mod Segments
pub mod Frames
mod Tests
use pscdrv.Common.{
  ℕ, zero, suc, List, [], ◌∷◌, ◌++◌, take, drop, resize, overwrite, length, get_or, Bool, true,
  false, not, ◌&&◌, ◌||◌, Option, none, some, lookup, insert, ltb, ◌==◌, if◌then◌else◌, ◌+◌,
}
use pscdrv.Wire.{Endian, htons, htonl, load}
use pscdrv.Block.{Block, BlockMap, Effect, announce, incr32}

-- `HEADER_SIZE`
abbrev pub header_size : ℕ
header_size = 8

-- The `bodyblock` pointer is the key of the block in `recv_blocks`: blocks are never removed.
pub record Decoder : Type 0 where
  pub have_head : Bool
  pub header : ℕ
  pub bodylen : ℕ
  pub bodyblock : Option ℕ
  pub expect : ℕ

abbrev pub idle_decoder : Decoder
idle_decoder = record {
  have_head = false;
  header = 0;
  bodylen = 0;
  bodyblock = none;
  expect = header_size;
}

-- What the loop reads and changes: `input` is the receive buffer of the session, `readings` how
-- often the clock has been read.
pub record Rx : Type 0 where
  pub dec : Decoder
  pub open dec use *
  pub input : List ℕ
  pub recv_blocks : BlockMap
  pub ukncount : ℕ
  pub readings : ℕ
  pub log : List Effect

-- `more`: a round was made. `waiting`: the `while` test fails. `framing`: the framing markers are
-- wrong. `failed`: an `assert` fails. `stuck` is no outcome of the code: the fuel ran out.
pub data Outcome : Type 0 where
  more waiting framing : Rx → Outcome
  failed stuck : Outcome

-- `epicsTime::getCurrent()`, or `epicsTime()` where that throws.
abbrev pub time_or_zero : Option ℕ → ℕ
time_or_zero none = 0
time_or_zero (some t) = t

-- `assert(nbytes > evbuffer_get_length(buf))`, at the end of a round that goes on.
abbrev pub progress : ℕ → Outcome → Outcome
progress nbytes (more r) = if ltb (length r.input) nbytes then more r else failed
progress nbytes (waiting r) = waiting r
progress nbytes (framing r) = framing r
progress nbytes failed = failed
progress nbytes stuck = stuck

-- The loop goes on after `more`, and ends after any other round.
abbrev pub next : (Rx → Outcome) → Outcome → Outcome
next f (more r) = f r
next f (waiting r) = waiting r
next f (framing r) = framing r
next f failed = failed
next f stuck = stuck

-- The body goes into the block, which is announced; without a block it is drained.
pub take_body : Rx → Rx
take_body r =
    let bytes = take r.bodylen r.input in
    let rest = drop r.bodylen r.input in
    let dec : Decoder = record {
      have_head = false;
      header = r.header;
      bodylen = r.bodylen;
      bodyblock = none;
      expect = header_size;
    } in
    elim r.bodyblock [
      | none ↦ record r { dec = dec; input = rest }
      | some id ↦ elim (lookup id r.recv_blocks) [
        | none ↦ record r { dec = dec; input = rest }
        | some b ↦
            let b' : Block = record b {
              data_bytes = overwrite bytes (resize r.bodylen 0 b.data_bytes);
            } in
            record r {
              dec = dec;
              input = rest;
              recv_blocks = insert id b' r.recv_blocks;
              log = r.log ++ announce b';
            }
      ]
    ]

module _ (clock : ℕ → Option ℕ) where
  -- The message ID is looked up, the block's time and count are set, or `ukncount` is raised.
  pub found_header : ℕ → ℕ → List ℕ → Rx → Rx
  found_header header bodylen rest r =
      let dec : Decoder = record {
        have_head = true;
        header = header;
        bodylen = bodylen;
        bodyblock = elim (lookup header r.recv_blocks) [ none ↦ none | some b ↦ some header ];
        expect = bodylen;
      } in
      elim (lookup header r.recv_blocks) [
        | none ↦ record r { dec = dec; input = rest; ukncount = incr32 r.ukncount }
        | some b ↦ record r {
          dec = dec;
          input = rest;
          readings = r.readings + 1;
          recv_blocks =
              insert header
                (record b { rxtime = time_or_zero (clock r.readings); count = incr32 b.count })
                r.recv_blocks;
        }
      ]

module _ (host : Endian) (clock : ℕ → Option ℕ) where
  -- `decode header`
  pub header_step : Rx → Outcome
  unfolding found_header
  header_step r =
      let hbuf = take header_size r.input in
      let rest = drop header_size r.input in
      let header = htons host (load host (take 2 (drop 2 hbuf))) in
      let bodylen = htonl host (load host (take 4 (drop 4 hbuf))) in
      if not (r.expect == header_size)
      then failed
      else if not (get_or hbuf 0 0 == b'P') || not (get_or hbuf 1 0 == b'S')
      then framing (record r { input = rest })
      else more (found_header clock header bodylen rest r)

  -- One round: the test of the loop, then the header or the body.
  pub step : Rx → Outcome
  unfolding header_step take_body
  step r =
      let nbytes = length r.input in
      if ltb nbytes r.expect
      then waiting r
      else if r.have_head
      then progress nbytes (more (take_body r))
      else progress nbytes (header_step r)

  -- The loop. A round that goes on has taken a byte, so a fuel above the length is enough.
  pub rounds : ℕ → Rx → Outcome
  rounds zero r = stuck
  rounds (suc fuel) r = next (λ r'. rounds fuel r') (step r)

  unfoldable pub receive : Rx → Outcome
  unfolding rounds
  receive r = rounds (suc (length r.input)) r
