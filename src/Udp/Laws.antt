-- ===== src/Udp/Laws.antt =====
-- What a datagram does to the blocks: a whole message, one from elsewhere, one that is too long for
-- the scratch buffer, one that is shorter than it says, and one whose length wraps.
use mathlib.Core.List.{append-nil}
use pscdrv.Common.{
  ℕ, List, [], ◌∷◌, ◌++◌, length, take, drop, resize, overwrite, lookup, insert, Bool, true, Option,
  some, ◌≡◌, refl, ◌∙◌, sym, subst, ◌<◌, ◌≤◌, ◌+◌, ◌-◌, ◌%◌, ◌^◌, ltb, if◌then◌else◌, arith,
  length-drop, length-take, length-resize, length-overwrite, take_all, take-append_ge,
  overwrite-append, overwrite-whole, take-overwrite_long,
}
use pscdrv.Wire.{Endian}
use pscdrv.Block.{Block, announce, incr32}
use pscdrv.Recv.{header_size, time_or_zero}
use pscdrv.Recv.Frames.{Message, header_bytes, encode, decode16, decode32}
use pscdrv.Udp.{Udp, Receipt, again, error, datagram, store_body, accept, receive_one, drain}

-- After a datagram with a header: what the scratch buffer holds behind the header, and the rest.
abbrev pub tail_of : List ℕ → List ℕ → List ℕ
tail_of payload scratch = overwrite payload (drop header_size scratch)

abbrev pub truncated : ℕ → Udp → Udp
truncated len v = record v {
  message = "truncated body";
  rxscratch = resize ((len + 8) % 2 ^ 32) 0 v.rxscratch;
  ukncount = incr32 v.ukncount;
}

pub length-tail : (payload scratch : List ℕ) → length (tail_of payload scratch) ≡ length scratch - 8
length-tail payload scratch =
    omega (arith, length-overwrite payload (drop 8 scratch), length-drop 8 scratch)

module _ (clock : ℕ → Option ℕ) (host : Endian) where
  accept-header :
      (ret id len : ℕ) (tail : List ℕ) (u : Udp) (scanme : Bool)
      → 8 ≤ ret
      → id < 2 ^ 16
      → len < 2 ^ 32
      → length tail + 8 < 2 ^ 64
      → let v = record u { rxscratch = header_bytes id len ++ tail } in
        accept clock host ret (v, scanme) ≡ (
          if ltb (length tail) len
          then (truncated len v, true)
          else (store_body clock id len v, scanme))
  unfolding accept
  accept-header ret id len tail u scanme r i l t =
      let size : (8 + length tail + 2 ^ 64 - 8) % 2 ^ 64 ≡ length tail = omega arith in
      ground (arith, decode16 host id i, decode32 host len l, size)

  pub receive_one-header :
      (id len : ℕ) (payload : List ℕ) (u : Udp) (scanme : Bool)
      → id < 2 ^ 16
      → len < 2 ^ 32
      → 8 + length payload ≤ length u.rxscratch
      → length u.rxscratch < 2 ^ 64
      → let tail = tail_of payload u.rxscratch in
        let v = record u { rxscratch = header_bytes id len ++ tail } in
        receive_one clock host true (header_bytes id len ++ payload) (u, scanme) ≡ (
          if ltb (length tail) len
          then (truncated len v, true)
          else (store_body clock id len v, scanme))
  unfolding receive_one
  receive_one-header id len payload u scanme i l fit size =
      rw
        (
          take_all (length u.rxscratch) (header_bytes id len ++ payload) (omega arith),
          overwrite-append (header_bytes id len) payload u.rxscratch (omega arith),
        )
        (accept-header _ id len (tail_of payload u.rxscratch) u scanme (omega arith) i l
          (omega (arith, length-tail payload u.rxscratch)))

  -- The state after a body for a known block.
  abbrev pub stored : ℕ → List ℕ → Block → Udp → Udp
  stored id body b v =
      let b' : Block = record b {
        data_bytes = body;
        rxtime = time_or_zero (clock v.readings);
        count = incr32 b.count;
      } in
      record v {
        readings = v.readings + 1;
        recv_blocks = insert id b' v.recv_blocks;
        log = v.log ++ announce b';
      }

  store_body-known :
      (id len : ℕ) (tail : List ℕ) (b : Block) (u : Udp)
      → len ≤ length tail
      → lookup id u.recv_blocks ≡ some b
      → let v = record u { rxscratch = header_bytes id len ++ tail } in
        store_body clock id len v ≡ stored id (take len tail) b v
  unfolding store_body
  store_body-known id len tail b u fit here = ground (
    arith,
    overwrite-whole (take len tail) (resize len 0 b.data_bytes)
        (omega (arith, length-resize len 0 b.data_bytes, length-take len tail)),
  )

  -- A datagram from the peer with the header of a known block and no more payload than it says,
  -- where the scratch buffer has room for what the header says: the block gets the payload, filled up
  -- from what the scratch buffer held at the same place before, and is counted and announced. So a
  -- whole message gives its body, and a datagram that is cut short leaves bytes of older ones.
  pub receive_one-known :
      (id len : ℕ) (payload : List ℕ) (b : Block) (u : Udp) (scanme : Bool)
      → id < 2 ^ 16
      → len < 2 ^ 32
      → length payload ≤ len
      → 8 + len ≤ length u.rxscratch
      → length u.rxscratch < 2 ^ 64
      → lookup id u.recv_blocks ≡ some b
      → let v = record u { rxscratch = header_bytes id len ++ tail_of payload u.rxscratch } in
        receive_one clock host true (header_bytes id len ++ payload) (u, scanme) ≡ (
          stored id
              (payload ++ take (len - length payload) (drop (length payload) (drop 8 u.rxscratch)))
              b
              v,
          scanme,
        )
  receive_one-known id len payload b u scanme i l short fit size here = ground (
    arith,
    receive_one-header id len payload u scanme i l (omega arith) size,
    length-tail payload u.rxscratch,
    store_body-known id len (tail_of payload u.rxscratch) b u
        (omega (arith, length-tail payload u.rxscratch)) here,
    take-overwrite_long len payload (drop 8 u.rxscratch) short
        (omega (arith, length-drop 8 u.rxscratch)),
  )

  receive_one-cut :
      (id len : ℕ) (body : List ℕ) (u : Udp) (scanme : Bool)
      → 8 ≤ length u.rxscratch
      → receive_one clock host true (header_bytes id len ++ body) (u, scanme)
        ≡ receive_one clock host true
            (header_bytes id len ++ take (length u.rxscratch - 8) body)
            (u, scanme)
  unfolding receive_one
  receive_one-cut id len body u scanme room =
      let cut = take-append_ge (length u.rxscratch) (header_bytes id len) body room in
      let short = take (length u.rxscratch - 8) body in
      rw (
        cut,
        take_all (length u.rxscratch) (header_bytes id len ++ short)
            (omega (arith, length-take (length u.rxscratch - 8) body)),
      )

  receive_one-truncated :
      (id len : ℕ) (body : List ℕ) (u : Udp) (scanme : Bool)
      → id < 2 ^ 16
      → len < 2 ^ 32
      → 8 ≤ length u.rxscratch
      → length u.rxscratch < 8 + len
      → let short = take (length u.rxscratch - 8) body in
        let v = record u { rxscratch = header_bytes id len ++ tail_of short u.rxscratch } in
        receive_one clock host true (header_bytes id len ++ body) (u, scanme)
        ≡ (truncated len v, true)
  receive_one-truncated id len body u scanme i l room small =
      let short = take (length u.rxscratch - 8) body in
      ground (
        arith,
        receive_one-cut id len body u scanme room,
        length-take (length u.rxscratch - 8) body,
        receive_one-header id len short u scanme i l
            (omega (arith, length-take (length u.rxscratch - 8) body)) (omega arith),
        length-tail short u.rxscratch,
      )

  receive_one-message :
      (m : Message) (b : Block) (u : Udp) (scanme : Bool)
      → m.id < 2 ^ 16
      → length m.body < 2 ^ 32
      → 8 + length m.body ≤ length u.rxscratch
      → length u.rxscratch < 2 ^ 64
      → lookup m.id u.recv_blocks ≡ some b
      → (receive_one clock host true (encode m) (u, scanme)).0.recv_blocks
        ≡ (stored m.id m.body b u).recv_blocks
  receive_one-message m b u scanme i l fit size here =
      let none_left : length m.body - length m.body ≡ 0 = omega arith in
      rw (
        receive_one-known m.id (length m.body) m.body b u scanme i l (omega arith) fit size here,
        none_left,
        append-nil m.body,
      )

  -- A message from the peer that is longer than the scratch buffer counts as unknown, reaches no
  -- block, and leaves the buffer just long enough for such a message, where 8 more than the length of
  -- its body is below 2 ^ 32. So the same message sent again is received by a known block.
  pub receive_one-again :
      (m : Message) (b : Block) (u : Udp) (scanme : Bool)
      → m.id < 2 ^ 16
      → length m.body + 8 < 2 ^ 32
      → 8 ≤ length u.rxscratch
      → length u.rxscratch < 8 + length m.body
      → lookup m.id u.recv_blocks ≡ some b
      → let (v, _) = receive_one clock host true (encode m) (u, scanme) in
        (v.recv_blocks ≡ u.recv_blocks)
        × (v.ukncount ≡ incr32 u.ukncount)
        × ((receive_one clock host true (encode m) (v, scanme)).0.recv_blocks
            ≡ (stored m.id m.body b v).recv_blocks)
  receive_one-again m b u scanme i l room small here =
      let short = take (length u.rxscratch - 8) m.body in
      let v = record u {
        rxscratch = header_bytes m.id (length m.body) ++ tail_of short u.rxscratch;
      } in
      let w = truncated (length m.body) v in
      let e =
        receive_one-truncated m.id (length m.body) m.body u scanme i (omega arith) room small in
      let room_of = λ (x : Udp). length-resize ((length m.body + 8) % 2 ^ 32) 0 x.rxscratch in
      rw e (
        refl,
        refl,
        receive_one-message m b w scanme i (omega arith) (omega (arith, room_of v))
            (omega (arith, room_of v)) here,
      )

  receive_one-small :
      (from_peer : Bool) (bytes : List ℕ) (u : Udp) (scanme : Bool)
      → length u.rxscratch < 8
      → let (v, _) = receive_one clock host from_peer bytes (u, scanme) in
        (v.recv_blocks ≡ u.recv_blocks) × (length v.rxscratch < 8)
  unfolding receive_one
  receive_one-small from_peer bytes u scanme h =
      let got = take (length u.rxscratch) bytes in
      ground (arith, length-take (length u.rxscratch) bytes, length-overwrite got u.rxscratch)

  -- A scratch buffer of fewer than 8 bytes stays one, and lets nothing through.
  drain-small :
      (rs : List Receipt) (u : Udp) (scanme : Bool)
      → length u.rxscratch < 8
      → let (v, _) = drain clock host rs (u, scanme) in
        (v.recv_blocks ≡ u.recv_blocks) × (length v.rxscratch < 8)
  unfolding drain
  drain-small [] u scanme h = (refl, h)
  drain-small (again ∷ rs) u scanme h = (refl, h)
  drain-small (error t ∷ rs) u scanme h = (refl, h)
  drain-small (datagram from_peer bytes ∷ rs) u scanme h =
      let (same, small) = receive_one-small from_peer bytes u scanme h in
      let next = receive_one clock host from_peer bytes (u, scanme) in
      let (same', small') = drain-small rs next.0 next.1 small in (same' ∙ same, small')

  -- A datagram from the peer whose header says a length of 2 ^ 32 - 8 or more shrinks a scratch buffer
  -- of up to that size below 8 bytes, since the length wraps: no datagram of the same wakeup that
  -- comes after it reaches a block, whatever it holds, and the buffer stays as small.
  wrapped_length_starves :
      (id len : ℕ) (body : List ℕ) (rs : List Receipt) (u : Udp) (scanme : Bool)
      → id < 2 ^ 16
      → len < 2 ^ 32
      → 2 ^ 32 - 8 ≤ len
      → 8 ≤ length u.rxscratch
      → length u.rxscratch ≤ 2 ^ 32 - 8
      → let (v, _) =
          drain clock host (datagram true (header_bytes id len ++ body) ∷ rs) (u, scanme) in
        (v.recv_blocks ≡ u.recv_blocks) × (length v.rxscratch < 8)
  unfolding drain
  wrapped_length_starves id len body rs u scanme i l wraps room size =
      let short = take (length u.rxscratch - 8) body in
      let v = record u { rxscratch = header_bytes id len ++ tail_of short u.rxscratch } in
      subst
        (λ us.
          let (w, _) = drain clock host rs us in
          (w.recv_blocks ≡ u.recv_blocks) × (length w.rxscratch < 8))
        (sym (receive_one-truncated id len body u scanme i l room (omega arith)))
        (drain-small rs (truncated len v) true
          (omega (arith, length-resize ((len + 8) % 2 ^ 32) 0 v.rxscratch)))
