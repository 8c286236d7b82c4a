-- ===== src/Target/Msg.antt =====
-- Whole messages over a socket: targetApp/pscmsg.c.
pub mod Messages
pub mod Receives
pub mod Sends
pub mod Skips
use pscdrv.Common.{
  ℕ, zero, suc, List, [], ◌∷◌, ◌++◌, length, take, drop, Bool, not, ◌||◌, Option, none, some,
  get_or, ltb, ◌==◌, if◌then◌else◌, ◌+◌, ◌-◌, ◌%◌, ◌^◌, min,
}
use pscdrv.Wire.{Endian, load, store, htons, htonl}
use pscdrv.Target.Socket.{
  Errno, enotconn, eio, Network, Sock, Sent, minus_one, count, Received, no_bytes, bytes, send,
  recv,
}

-- The return value: 0, or an `errno`. `hung` is no value of the code: the fuel ran out.
pub data Ret : Type 0 where
  fine : Ret
  errno : Errno → Ret
  hung : Ret
  overran : Ret

-- `if(ret) return ret;`
abbrev pub and_then : Ret × Sock → (Sock → Ret × Sock) → Ret × Sock
and_then (fine, s) next = next s
and_then (errno e, s) next = (errno e, s)
and_then (hung, s) next = (hung, s)
and_then (overran, s) next = (overran, s)

-- A round of the loop of `psc_sendall` behind its `send`.
abbrev pub after_send : (List ℕ → Sock → Ret × Sock) → List ℕ → Sent → Ret × Sock
after_send loop buf (minus_one e s) = (errno e, s)
after_send loop buf (count n s) = if n == 0 then (errno enotconn, s) else loop (drop n buf) s

abbrev pub prepend : List ℕ → Ret × List ℕ × Sock → Ret × List ℕ × Sock
prepend xs (r, ys, s) = (r, xs ++ ys, s)

-- The same of `psc_recvall`.
abbrev pub after_recv : (ℕ → Sock → Ret × List ℕ × Sock) → ℕ → Received → Ret × List ℕ × Sock
after_recv loop len (no_bytes e s) = (errno e, [], s)
after_recv loop len (bytes xs s) =
    if length xs == 0 then (errno enotconn, [], s) else prepend xs (loop (len - length xs) s)

-- What `psc_recvhead` makes of the eight bytes, and what `psc_recvmsg` makes of a message: the
-- return value with the ID and the length or the body, which are set only as the code sets them.
pub data Head : Type 0 where
  no_head : Ret → Sock → Head
  head : ℕ → ℕ → Sock → Head

pub data Got : Type 0 where
  nothing : Ret → Sock → Got
  message : Ret → ℕ → List ℕ → Sock → Got

-- The buffer of `psc_recvskip` has 128 places and is not looked at; more bytes are written behind it.
abbrev pub forget : Ret × List ℕ × Sock → Ret × Sock
forget (r, xs, s) = (if ltb 128 (length xs) then overran else r, s)

-- A chunk that fails ends the loop, and the last `psc_recvall` is made all the same.
abbrev pub after_chunk : (Sock → Ret × Sock) → (Sock → Ret × Sock) → Ret × Sock → Ret × Sock
after_chunk again final (fine, s) = again s
after_chunk again final (errno e, s) = final s
after_chunk again final (hung, s) = (hung, s)
after_chunk again final (overran, s) = (overran, s)

abbrev pub skipped : ℕ → List ℕ → Ret × Sock → Got
skipped mid body (r, s) = message r mid body s

module _ (net : Network) where
  -- A round that goes on has put out a byte, so a fuel of the length is enough.
  unfoldable pub send_loop : ℕ → List ℕ → Sock → Ret × Sock
  send_loop zero buf s = (if length buf == 0 then fine else hung, s)
  send_loop (suc fuel) buf s =
      if length buf == 0 then (fine, s) else after_send (send_loop fuel) buf (send net buf s)

  unfoldable pub psc_sendall : List ℕ → Sock → Ret × Sock
  unfolding send_loop
  psc_sendall buf s = send_loop (length buf) buf s

  unfoldable pub recv_loop : ℕ → ℕ → Sock → Ret × List ℕ × Sock
  recv_loop zero len s = (if len == 0 then fine else hung, [], s)
  recv_loop (suc fuel) len s =
      if len == 0 then (fine, [], s) else after_recv (recv_loop fuel) len (recv net len s)

  -- With the bytes that it has stored in the buffer.
  unfoldable pub psc_recvall : ℕ → Sock → Ret × List ℕ × Sock
  unfolding recv_loop
  psc_recvall len s = recv_loop len len s

  unfoldable pub skip_loop : ℕ → ℕ → Sock → Ret × Sock
  skip_loop zero len s = (hung, s)
  skip_loop (suc fuel) len s =
      let final = λ (t : Sock). forget (psc_recvall len t) in
      if ltb 128 len
      then after_chunk (λ (t : Sock). skip_loop fuel (len - 128) t) final
          (forget (psc_recvall 128 s))
      else final s

  unfoldable pub psc_recvskip : ℕ → Sock → Ret × Sock
  unfolding skip_loop
  psc_recvskip len s = skip_loop (suc len) len s

  -- Behind the body: `rlen` of its `mlen` bytes have been stored.
  abbrev pub read_rest : ℕ → ℕ → ℕ → Ret × List ℕ × Sock → Got
  read_rest mid mlen rlen (fine, body, s) =
      if ltb rlen mlen
      then skipped mid body (psc_recvskip (mlen - rlen) s)
      else message fine mid body s
  read_rest mid mlen rlen (errno e, body, s) = nothing (errno e) s
  read_rest mid mlen rlen (hung, body, s) = nothing hung s
  read_rest mid mlen rlen (overran, body, s) = nothing overran s

  abbrev pub read_body : ℕ → Head → Got
  read_body maxlen (no_head r s) = nothing r s
  read_body maxlen (head mid mlen s) =
      let rlen = if ltb maxlen mlen then maxlen else mlen in
      read_rest mid mlen rlen (psc_recvall rlen s)

module _ (host : Endian) where
  -- The bytes of `union psc_header_buf`.
  abbrev pub psc_header : ℕ → ℕ → List ℕ
  psc_header mid mlen =
      b'P' ∷ b'S' ∷ store host 2 (htons host mid) ++ store host 4 (htonl host mlen)

  abbrev pub read_head : Ret × List ℕ × Sock → Head
  read_head (fine, buf, s) =
      if not (get_or buf 0 0 == b'P') || not (get_or buf 1 0 == b'S')
      then no_head (errno eio) s
      else head (htons host (load host (take 2 (drop 2 buf))))
          (htonl host (load host (take 4 (drop 4 buf)))) s
  read_head (errno e, buf, s) = no_head (errno e) s
  read_head (hung, buf, s) = no_head hung s
  read_head (overran, buf, s) = no_head overran s

module _ (host : Endian) (net : Network) where
  unfoldable pub psc_sendhead : ℕ → ℕ → Sock → Ret × Sock
  psc_sendhead msgid msglen s = psc_sendall net (psc_header host msgid msglen) s

  -- `msglen` is the length of `buf`.
  unfoldable pub psc_sendmsg : ℕ → List ℕ → Sock → Ret × Sock
  psc_sendmsg msgid buf s = and_then (psc_sendhead msgid (length buf) s) (psc_sendall net buf)

  unfoldable pub psc_sendmsgsingle : ℕ → ℕ → List ℕ → Sock → Ret × Sock
  psc_sendmsgsingle msgid regid buf s =
      and_then (psc_sendhead msgid ((length buf + 4) % 2 ^ 32) s)
        λ t. and_then (psc_sendall net (store host 4 (htonl host regid)) t) (psc_sendall net buf)

  unfoldable pub psc_recvhead : Sock → Head
  psc_recvhead s = read_head host (psc_recvall net 8 s)

  unfoldable pub psc_recvmsg : ℕ → Sock → Got
  psc_recvmsg maxlen s = read_body net maxlen (psc_recvhead s)
