-- ===== src/Target/Msg/Skips.antt =====
-- A failure while `psc_recvskip` (targetApp/pscmsg.c) drops the end of a long message.
use mathlib.Core.List.{append-nil}
use pscdrv.Common.{
  ℕ, suc, List, ◌++◌, length, ◌≡◌, refl, ◌∙◌, ap, ◌-◌, ◌<◌, min, arith, false, ◌==◌, length-append,
  take-append_length, drop-append_length, lt→ltb, ltb, take, true, length-take,
}
use pscdrv.Target.Socket.{bytes, recv_by, Errno, Network, Sock, fails, moves, recv}
use pscdrv.Target.Msg.{
  prepend, errno, overran, after_recv, recv_loop, psc_recvall, skip_loop, psc_recvskip,
}
use pscdrv.Target.Msg.Receives.{FlowsFrom, reading, psc_recvall-from, drop-length}

recv_loop_round :
    (net : Network) (fuel n : ℕ) (s : Sock)
    → 0 < n
    → recv_loop net (suc fuel) n s ≡ after_recv (recv_loop net fuel) n (recv net n s)
unfolding recv_loop
recv_loop_round net fuel n s pos =
    let some_left : (n == 0) ≡ false = ground arith in rw some_left refl

module _ (net : Network) (e : Errno) (xs rest out : List ℕ) (c : ℕ) where
  recv_first :
      (n : ℕ)
      → length xs < n
      → net c ≡ moves (length xs)
      → recv net n (reading (xs ++ rest) out c) ≡ bytes xs (reading rest out (suc c))
  recv_first n short first =
      let all : min (min (length xs) n) (length (xs ++ rest)) ≡ length xs =
        omega (arith, length-append xs rest) in
      rw (first, all, take-append_length xs rest, drop-append_length xs rest) refl

  -- A read that gets `xs` and then fails has lost these bytes.
  recv_loop-cut :
      (fuel n : ℕ)
      → 0 < length xs
      → length xs < n
      → net c ≡ moves (length xs)
      → net (suc c) ≡ fails e
      → recv_loop net (suc (suc fuel)) n (reading (xs ++ rest) out c)
        ≡ (errno e, xs, reading rest out (suc (suc c)))
  recv_loop-cut fuel n pos short first second =
      let some_read : (length xs == 0) ≡ false = ground arith in
      recv_loop_round net (suc fuel) n (reading (xs ++ rest) out c) (omega arith)
      ∙ ap (after_recv (recv_loop net (suc fuel)) n) (recv_first n short first)
      ∙ rw some_read (
          ap (prepend xs) (
            recv_loop_round net fuel (n - length xs) (reading rest out (suc c)) (omega arith)
            ∙ ap
                (λ m.
                  after_recv (recv_loop net fuel) (n - length xs)
                    (recv_by m (n - length xs) (reading rest out (suc c))))
                second))
      ∙ ap (λ ys. (errno e, ys, reading rest out (suc (suc c)))) (append-nil xs)

  psc_recvall-cut :
      0 < length xs
      → length xs < 128
      → net c ≡ moves (length xs)
      → net (suc c) ≡ fails e
      → psc_recvall net 128 (reading (xs ++ rest) out c)
        ≡ (errno e, xs, reading rest out (suc (suc c)))
  unfolding psc_recvall
  psc_recvall-cut pos short first second = recv_loop-cut 126 128 pos short first second

-- A call of `psc_recvskip` for more than 128 bytes, whose first chunk gets some bytes and then fails,
-- and no later call of `recv` does: it goes on to read all of the bytes that it was called for into its
-- buffer of 128, writes behind the buffer, and has taken as many bytes too many from the connection as
-- the chunk had got.
pub psc_recvskip-too_many :
    (net : Network) (e : Errno) (xs ys rest out : List ℕ) (c : ℕ)
    → 0 < length xs
    → length xs < 128
    → 128 < length ys
    → net c ≡ moves (length xs)
    → net (suc c) ≡ fails e
    → FlowsFrom (suc (suc c)) net
    → (c' : ℕ) × (psc_recvskip net (length ys) (reading (xs ++ (ys ++ rest)) out c)
        ≡ (overran, reading rest out c'))
unfolding psc_recvskip skip_loop
psc_recvskip-too_many net e xs ys rest out c pos short long first second flow =
    let (c', r) = psc_recvall-from net (length ys) ys rest out (suc (suc c)) flow (omega arith) in
    let took : ltb 128 (length (take (length ys) ys)) ≡ true =
      ground (arith, length-take (length ys) ys) in
    let within : ltb 128 (length xs) ≡ false = ground arith in
    (
      c',
      rw
          (
            lt→ltb 128 (length ys) long,
            psc_recvall-cut net e xs (ys ++ rest) out c pos short first second,
            within,
            r,
            took,
          )
          (ap (λ zs. (overran, reading (zs ++ rest) out c')) (drop-length ys)),
    )
