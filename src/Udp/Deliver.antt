-- ===== src/Udp/Deliver.antt =====
-- Datagrams and the stream: a message does the same to the blocks either way.
use mathlib.Core.List.{append-nil}
use pscdrv.Common.{
  ℕ, List, [], ◌∷◌, ◌++◌, length, take, drop, resize, lookup, Bool, true, false, Option, ◌≡◌, refl,
  ◌∙◌, sym, ap, subst, ◌<◌, ◌≤◌, ◌+◌, ◌^◌, arith, All, Option-cases, inl, inr, length-drop,
  overwrite-whole, take-overwrite, length-resize, ltb,
}
use pscdrv.Wire.{Endian}
use pscdrv.Recv.{Rx, waiting, receive}
use pscdrv.Recv.Frames.{
  Message, IsMessage, IsIdle, header_bytes, encode, encode_all, deliver, deliver_all,
  receive-encode_all, receive-empty,
}
use pscdrv.Udp.{Udp, Receipt, datagram, store_body, receive_one, drain}
use pscdrv.Udp.Laws.{tail_of, length-tail, receive_one-header}

-- The two drivers show the records the same.
abbrev pub Agrees : Udp → Rx → Type 0
Agrees u r =
    (u.recv_blocks ≡ r.recv_blocks)
    × (u.ukncount ≡ r.ukncount)
    × (u.readings ≡ r.readings)
    × (u.log ≡ r.log)

-- The message's ID has 16 bits, and the scratch buffer has room for it.
abbrev pub HasRoom : ℕ → Message → Type 0
HasRoom room m = (m.id < 2 ^ 16) × (8 + length m.body ≤ room)

abbrev pub datagrams : List Message → List Receipt
datagrams [] = []
datagrams (m ∷ ms) = datagram true (encode m) ∷ datagrams ms

module _ (clock : ℕ → Option ℕ) where
  store_body-Agrees :
      (m : Message) (u : Udp) (r : Rx)
      → take (length m.body) (drop 8 u.rxscratch) ≡ m.body
      → Agrees u r
      → Agrees (store_body clock m.id (length m.body) u) (deliver clock m r)
        × ((store_body clock m.id (length m.body) u).rxscratch ≡ u.rxscratch)
  unfolding store_body
  store_body-Agrees m u r e (same, ukn, reads, logs) =
      elim (Option-cases (lookup m.id u.recv_blocks)) [
        | inl n ↦ ((ground arith, ground arith, ground arith, ground arith), ground arith)
        | inr (b, f) ↦
            let whole =
              overwrite-whole m.body (resize (length m.body) 0 b.data_bytes)
                (length-resize (length m.body) 0 b.data_bytes) in
            (
              (
                ground (arith, whole),
                ground (arith, whole),
                ground (arith, whole),
                ground (arith, whole),
              ),
              ground arith,
            )
      ]

  receive_one-Agrees :
      (host : Endian) (m : Message) (u : Udp) (r : Rx) (scanme : Bool)
      → HasRoom (length u.rxscratch) m
      → length u.rxscratch < 2 ^ 32
      → Agrees u r
      → let (v, flag) = receive_one clock host true (encode m) (u, scanme) in
        Agrees v (deliver clock m r) × (flag ≡ scanme) × (length v.rxscratch ≡ length u.rxscratch)
  receive_one-Agrees host m u r scanme (id_16, fits) size agrees =
      let n = length m.body in
      let tail = tail_of m.body u.rxscratch in
      let long = length-tail m.body u.rxscratch in
      let v : Udp = record u { rxscratch = header_bytes m.id n ++ tail } in
      let body : take n tail ≡ m.body =
        take-overwrite m.body (drop 8 u.rxscratch) (omega (arith, length-drop 8 u.rxscratch)) in
      let test : ltb (length tail) n ≡ false = ground arith in
      let (a, same) = store_body-Agrees m v r body agrees in
      rw
        (
          receive_one-header clock host m.id n m.body u scanme id_16 (omega arith) fits
              (omega arith),
          test,
        )
        (a, refl, ap length same ∙ omega (arith, long))

-- Messages in datagrams from the peer, each with room in the scratch buffer, are delivered one by one;
-- none is lost or counted as an error, and the scratch buffer keeps its size.
drain-deliver_all :
    (clock : ℕ → Option ℕ) (host : Endian) (ms : List Message) (u : Udp) (r : Rx) (scanme : Bool)
    → All (HasRoom (length u.rxscratch)) ms
    → length u.rxscratch < 2 ^ 32
    → Agrees u r
    → let (v, flag) = drain clock host (datagrams ms) (u, scanme) in
      Agrees v (deliver_all clock ms r)
      × (flag ≡ scanme)
      × (length v.rxscratch ≡ length u.rxscratch)
unfolding drain
drain-deliver_all clock host [] u r scanme room size agrees = (agrees, refl, refl)
drain-deliver_all clock host (m ∷ ms) u r scanme room size agrees =
    let w = receive_one clock host true (encode m) (u, scanme) in
    let (a, flag, long) = receive_one-Agrees clock host m u r scanme room.0 size agrees in
    let room' = subst (λ n. All (HasRoom n) ms) (sym long) room.1 in
    let (b, flag', long') =
      drain-deliver_all clock host ms w.0 (deliver clock m r) w.1 room' (omega arith) a in
    (b, flag' ∙ flag, long' ∙ long)

deliver_all-IsIdle :
    (clock : ℕ → Option ℕ) (ms : List Message) (r : Rx) → IsIdle r → IsIdle (deliver_all clock ms r)
deliver_all-IsIdle clock [] r idle = idle
deliver_all-IsIdle clock (m ∷ ms) r idle =
    deliver_all-IsIdle clock ms (deliver clock m r) (ground arith)

-- Messages of the protocol with bodies that are not empty, each in a datagram from the peer that the
-- scratch buffer has room for, do the same to the blocks, the counters, the clock and the requests as
-- the loop of the stream decoder does with the same messages in a row, where that starts between
-- messages with the same blocks and then waits with no byte left. None is counted as an error, and the
-- scratch buffer keeps its size.
pub drain-receive :
    (clock : ℕ → Option ℕ) (host : Endian) (ms : List Message) (u : Udp) (r : Rx) (scanme : Bool)
    → All IsMessage ms
    → All (HasRoom (length u.rxscratch)) ms
    → length u.rxscratch < 2 ^ 32
    → IsIdle r
    → Agrees u r
    → let (v, flag) = drain clock host (datagrams ms) (u, scanme) in
      (r' : Rx) × (receive host clock (record r { input = encode_all ms }) ≡ waiting r')
      × (r'.input ≡ [])
      × Agrees v r'
      × (flag ≡ scanme)
      × (length v.rxscratch ≡ length u.rxscratch)
drain-receive clock host ms u r scanme valid room size idle agrees =
    let r' : Rx = record (deliver_all clock ms r) { input = [] } in
    let (a, flag, long) = drain-deliver_all clock host ms u r scanme room size agrees in
    (
      r',
      ap (λ xs. receive host clock (record r { input = xs })) (sym (append-nil (encode_all ms)))
          ∙ receive-encode_all host clock ms [] r valid idle
          ∙ receive-empty host clock (deliver_all clock ms r) (deliver_all-IsIdle clock ms r idle),
      refl,
      a,
      flag,
      long,
    )
