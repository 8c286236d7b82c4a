-- ===== src/Target/Socket.antt =====
-- The socket calls `send` and `recv`, which targetApp/pscmsg.c makes: code of the network stack, so
-- what each call does is the choice of a network, within what POSIX says of the two.
use pscdrv.Common.{ℕ, suc, List, ◌++◌, length, take, drop, min}

-- The values of `errno`; it is not zero after a call that returns -1.
pub data Errno : Type 0 where
  enotconn eio : Errno
  other : ℕ → Errno

-- What the network does at one call: the call returns -1, or as many bytes as this at most pass.
pub data Move : Type 0 where
  fails : Errno → Move
  moves : ℕ → Move

-- The network's choices, by the number of the call.
abbrev pub Network : Type 0
Network = ℕ → Move

-- A connection: the bytes of the peer that are still to be read, those put out, the calls made.
pub record Sock : Type 0 where
  pub input : List ℕ
  pub output : List ℕ
  pub calls : ℕ

-- The return value of `send`, with `errno`, and of `recv`, with the bytes it stores.
pub data Sent : Type 0 where
  minus_one : Errno → Sock → Sent
  count : ℕ → Sock → Sent

pub data Received : Type 0 where
  no_bytes : Errno → Sock → Received
  bytes : List ℕ → Sock → Received

abbrev pub send_by : Move → List ℕ → Sock → Sent
send_by (fails e) buf s = minus_one e (record s { calls = suc s.calls })
send_by (moves k) buf s =
    let n = min k (length buf) in
    count n (record s { output = s.output ++ take n buf; calls = suc s.calls })

-- At most `len` bytes of the input; none are there when the peer has closed.
abbrev pub recv_by : Move → ℕ → Sock → Received
recv_by (fails e) len s = no_bytes e (record s { calls = suc s.calls })
recv_by (moves k) len s =
    let n = min (min k len) (length s.input) in
    bytes (take n s.input) (record s { input = drop n s.input; calls = suc s.calls })

module _ (net : Network) where
  abbrev pub send : List ℕ → Sock → Sent
  send buf s = send_by (net s.calls) buf s

  abbrev pub recv : ℕ → Sock → Received
  recv len s = recv_by (net s.calls) len s
