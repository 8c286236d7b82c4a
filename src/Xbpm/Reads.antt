-- ===== src/Xbpm/Reads.antt =====
-- `connread` and `connevent` of xbpmApp/target/main.c: what the server makes of the bytes it gets.
pub mod Loses
use pscdrv.Common.{
  ℕ, zero, suc, List, [], ◌∷◌, ◌++◌, length, take, drop, get_or, Bool, true, false, not, ◌||◌, ltb,
  ◌==◌, if◌then◌else◌, ◌+◌, ◌*◌,
}
use pscdrv.Wire.{Endian, load, htons, htonl}
use pscdrv.Xbpm.{
  Connection, Server, Ran, ran, aborted, freed, faulted, endless, ◌>>=◌, at, put, freeconn, maxmsg,
}

-- How a round of the loop of `connread` ends: the loop goes on, it waits for more bytes, or the
-- connection is given up; or an assertion fails.
pub data Round : Type 0 where
  more waits : Connection → Round
  lost broken : Round

-- The size that the code waits for.
abbrev pub expect : Connection → ℕ
expect conn = if conn.havehead then 8 else conn.msglen

-- `assert(expect<MAXMSG+1)` and `bufferevent_setwatermark`.
abbrev pub wait : Connection → Round
wait conn =
    if ltb (expect conn) (maxmsg + 1) then waits (record conn { low = expect conn }) else broken

-- "process message body"
abbrev pub read_body : Connection → Round
read_body conn =
    if ltb (length conn.rx) conn.msglen
    then broken
    else more (record conn {
      havehead = false;
      user_buf = take conn.msglen conn.rx;
      rx = drop conn.msglen (drop conn.msglen conn.rx);
    })

abbrev pub after_round : (Connection → Ran Server) → ℕ → Server → Round → Ran Server
after_round loop c s (more conn) = loop conn
after_round loop c s (waits conn) = ran (put c conn s)
after_round loop c s lost = freeconn c s
after_round loop c s broken = aborted

module _ (host : Endian) where
  -- "process message header"
  abbrev pub read_head : Connection → Round
  read_head conn =
      let head = take 8 conn.rx in
      let id = htons host (load host (take 2 (drop 2 head))) in
      let len = htonl host (load host (take 4 (drop 4 head))) in
      if ltb (length conn.rx) 8
      then broken
      else if not (get_or head 0 0 == b'P') || not (get_or head 1 0 == b'S')
      then lost
      else if ltb maxmsg len
      then lost
      else more (record conn { havehead = true; msgid = id; msglen = len; rx = drop 8 conn.rx })

  unfoldable pub read_round : Connection → Round
  read_round conn =
      if ltb (length conn.rx) (expect conn)
      then wait conn
      else if conn.havehead
      then read_body conn
      else read_head conn

  -- Two rounds take eight bytes at least, so twice the bytes and two more rounds are enough.
  unfoldable pub read_loop : ℕ → ℕ → Server → Connection → Ran Server
  read_loop zero c s conn = endless
  read_loop (suc fuel) c s conn = after_round (read_loop fuel c s) c s (read_round conn)

  -- The bytes have come into the buffer.
  unfoldable pub connread : ℕ → Server → Ran Server
  connread c s = at c s >>= λ conn. read_loop (2 * length conn.rx + 2) c s conn

-- `connevent`: any event ends the connection.
unfoldable pub connevent : ℕ → Server → Ran Server
connevent c s = freeconn c s
