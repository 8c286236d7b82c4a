-- ===== src/Xbpm/Tests.antt =====
-- The theorems on the server of the XBPM application at concrete states.
use pscdrv.Common.{ℕ, List, [], ◌∷◌, ◌++◌, Option, false, none, some, ◌≡◌, refl, arith, replicate}
use pscdrv.Wire.{little, big}
use pscdrv.Recv.Frames.{header_bytes}
use pscdrv.Xbpm.{Connection, Server, ran, aborted, put, freeconn}
use pscdrv.Xbpm.Reads.{connread}
use pscdrv.Xbpm.Reads.Loses.{stored, connread-aborted, connread-dropped}
use pscdrv.Xbpm.Frees.{freeconn-Segment}
use pscdrv.Xbpm.Frees.Segments.{Segment}

abbrev connection : Option ℕ → Option ℕ → List ℕ → Connection
connection prev next rx = record {
  conn_next = next;
  conn_prev = prev;
  rx = rx;
  tx = [];
  low = 8;
  user_buf = [];
  havehead = false;
  msgid = 0;
  msglen = 0;
  msg_drop_cnt = 0;
}

abbrev two : Server
two = record {
  conn_first = some 2;
  conn_fail_cnt = 0;
  cycle_count = 0;
  conns = (1, connection (some 2) none []) ∷ (2, connection none (some 1) []) ∷ [];
}

freeconn-Segment_example :
    (s' : Server) × (last' : Option ℕ) × (freeconn 1 two ≡ ran s')
    × Segment s'.conns none s'.conn_first (2 ∷ []) last' none
freeconn-Segment_example = freeconn-Segment two (2 ∷ []) 1 [] (some 1) (
  connection none (some 1) [],
  refl,
  refl,
  refl,
  refl,
  (connection (some 2) none [], refl, refl, refl, refl, (refl, refl)),
)

abbrev eight : List ℕ
eight = replicate 8 0

abbrev reading : List ℕ → Server
reading rx = record {
  conn_first = some 1;
  conn_fail_cnt = 0;
  cycle_count = 0;
  conns = (1, connection none none rx) ∷ [];
}

connread-aborted_example : connread little 1 (reading (header_bytes 7 9 ++ eight)) ≡ aborted
connread-aborted_example =
    connread-aborted little 1 (reading (header_bytes 7 9 ++ eight))
      (connection none none (header_bytes 7 9 ++ eight)) refl 7 9 (omega arith) (omega arith)
      (refl, omega arith) eight refl (omega arith) (omega arith)

connread-dropped_example :
    connread big 1 (reading (header_bytes 7 8 ++ (eight ++ (b'P' ∷ []))))
    ≡ ran (
        put 1
          (record (stored
            (connection none none (header_bytes 7 8 ++ (eight ++ (b'P' ∷ []))))
            7
            eight
            []) { low = 8 })
          (reading (header_bytes 7 8 ++ (eight ++ (b'P' ∷ [])))))
connread-dropped_example =
    connread-dropped big 1 (reading (header_bytes 7 8 ++ (eight ++ (b'P' ∷ []))))
      (connection none none (header_bytes 7 8 ++ (eight ++ (b'P' ∷ [])))) refl 7 8 (omega arith)
      (omega arith) (refl, omega arith) eight (b'P' ∷ []) refl refl (omega arith) (omega arith)
