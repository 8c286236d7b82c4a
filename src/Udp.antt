-- ===== src/Udp.antt =====
-- `class PSCUDP` (coreApp/src/pscudp.cpp): one datagram is one message.
pub mod Laws
pub mod Deliver
mod Tests
use Prim.Native.String
use pscdrv.Common.{
  ℕ, List, [], ◌∷◌, ◌++◌, length, take, drop, resize, overwrite, get_or, lookup, insert, Bool, true,
  false, not, ◌&&◌, ◌||◌, Option, none, some, String, ltb, ◌==◌, if◌then◌else◌, ◌+◌, ◌-◌, ◌%◌, ◌^◌,
  min,
}
use pscdrv.Wire.{Endian, htons, htonl, load}
use pscdrv.Block.{Block, BlockMap, Effect, scan_status, announce, incr32}
use pscdrv.Recv.{header_size, time_or_zero}
use pscdrv.Outcome.{Result, ok, threw, runtime_error}

-- The fields that change. `rxscratch` is the buffer that datagrams are received into.
pub record Udp : Type 0 where
  pub connected : Bool
  pub ukncount : ℕ
  pub conncount : ℕ
  pub send_blocks : BlockMap
  pub recv_blocks : BlockMap
  pub rxscratch : List ℕ
  pub message : String
  pub readings : ℕ
  pub log : List Effect

-- One answer of `recvfrom`: nothing is left, an error with its text, or a datagram, with whether it
-- comes from the peer.
pub data Receipt : Type 0 where
  again : Receipt
  error : String → Receipt
  datagram : Bool → List ℕ → Receipt

-- `PSCUDP::connect`; `added` is the success of `event_add`.
unfoldable pub connect : Bool → Udp → Result Udp
connect added u =
    if added
    then ok (record u { connected = true })
    else threw (runtime_error "Failed to add Rx event") u

module _ (clock : ℕ → Option ℕ) where
  -- The body of a whole message goes into its block, or counts as unknown.
  unfoldable pub store_body : ℕ → ℕ → Udp → Udp
  store_body header bodylen u = elim (lookup header u.recv_blocks) [
    | none ↦ record u { ukncount = incr32 u.ukncount }
    | some b ↦
        let b' : Block = record b {
          data_bytes =
              overwrite (take bodylen (drop header_size u.rxscratch))
                (resize bodylen 0 b.data_bytes);
          rxtime = time_or_zero (clock u.readings);
          count = incr32 b.count;
        } in
        record u {
          readings = u.readings + 1;
          recv_blocks = insert header b' u.recv_blocks;
          log = u.log ++ announce b';
        }
  ]

  module _ (host : Endian) where
    -- A datagram from the peer, in the scratch buffer with `ret` bytes of it. The flag is `scanme`.
    -- `bodylen + 8` is an epicsUInt32, and `rxscratch.size() - 8` a size_t of 64 bits.
    unfoldable pub accept : ℕ → Udp × Bool → Udp × Bool
    unfolding store_body
    accept ret (u, scanme) =
        let hbuf = u.rxscratch in
        let header = htons host (load host (take 2 (drop 2 hbuf))) in
        let bodylen = htonl host (load host (take 4 (drop 4 hbuf))) in
        if ltb ret 8
        then (record u { ukncount = incr32 u.ukncount; message = "small packet" }, true)
        else if not (get_or hbuf 0 0 == b'P') || not (get_or hbuf 1 0 == b'S')
        then (record u { message = "Corrupt packet!" }, true)
        else if ltb ((length hbuf + 2 ^ 64 - 8) % 2 ^ 64) bodylen
        then (
          record u {
            message = "truncated body";
            rxscratch = resize ((bodylen + 8) % 2 ^ 32) 0 hbuf;
            ukncount = incr32 u.ukncount;
          },
          true,
        )
        else (store_body header bodylen u, scanme)

    -- `recvfrom` stores as much of the datagram as the scratch buffer holds.
    unfoldable pub receive_one : Bool → List ℕ → Udp × Bool → Udp × Bool
    unfolding accept
    receive_one from_peer bytes (u, scanme) =
        let got = take (length u.rxscratch) bytes in
        let v = record u { rxscratch = overwrite got u.rxscratch } in
        if from_peer then accept (length got) (v, scanme) else (v, scanme)

    -- The `while(true)` of `recvdata`, over the answers of `recvfrom`.
    unfoldable pub drain : List Receipt → Udp × Bool → Udp × Bool
    unfolding receive_one
    drain [] us = us
    drain (again ∷ rs) us = us
    drain (error text ∷ rs) (u, scanme) = (
      record u { conncount = incr32 u.conncount; message = String.◌++◌ "Rx socket error: " text },
      true,
    )
    drain (datagram from_peer bytes ∷ rs) us = drain rs (receive_one from_peer bytes us)

    -- `PSCUDP::recvdata`, with the bits EV_TIMEOUT and EV_READ of its event.
    unfoldable pub recvdata : Bool → Bool → List Receipt → Udp → Udp
    unfolding drain
    recvdata timeout read rs u =
        if timeout
        then record u {
          conncount = incr32 u.conncount;
          message = "Rx timeout";
          log = u.log ++ (scan_status ∷ []);
        }
        else if not read
        then u
        else (let (v, scanme) = drain rs (u, false) in
            if scanme then record v { log = v.log ++ (scan_status ∷ []) } else v)
