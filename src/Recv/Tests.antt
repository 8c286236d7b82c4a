-- ===== src/Recv/Tests.antt =====
-- The theorems on the decoder at concrete streams.
use pscdrv.Common.{ℕ, List, [], ◌∷◌, ◌++◌, true, false, Option, some, ◌≡◌, refl, inr, arith, ◌+◌}
use pscdrv.Wire.{little, big}
use pscdrv.Block.{Block}
use pscdrv.Recv.{Rx, idle_decoder, receive}
use pscdrv.Recv.Rounds.{EndsWell, receive-EndsWell}
use pscdrv.Recv.Segments.{feed, resume, receive-feed}
use pscdrv.Recv.Frames.{Message, deliver_all, encode_all, receive-encode_all}

abbrev clock : ℕ → Option ℕ
clock n = some (100 + n)

abbrev block_7 : Block
block_7 = record {
  code = 7;
  data_bytes = [];
  queued = false;
  listeners = [];
  count = 0;
  rxtime = 0;
}

abbrev idle : Rx
idle = record {
  dec = idle_decoder;
  input = [];
  recv_blocks = (7, block_7) ∷ [];
  ukncount = 0;
  readings = 0;
  log = [];
}

abbrev body_waits : Rx
body_waits = record idle {
  dec = record { have_head = true; header = 7; bodylen = 2; bodyblock = some 7; expect = 2 };
  input = 5 ∷ [];
}

abbrev messages : List Message
messages = record { id = 7; body = 5 ∷ 6 ∷ [] } ∷ record { id = 300; body = 1 ∷ [] } ∷ []

receive-EndsWell_example :
    EndsWell big clock
      (feed (6 ∷ b'P' ∷ []) body_waits)
      (receive big clock (feed (6 ∷ b'P' ∷ []) body_waits))
receive-EndsWell_example =
    receive-EndsWell big clock (feed (6 ∷ b'P' ∷ []) body_waits) (inr (refl, refl))

receive-feed_example :
    receive little clock (feed (6 ∷ b'P' ∷ []) body_waits)
    ≡ resume little clock (6 ∷ b'P' ∷ []) (receive little clock body_waits)
receive-feed_example = receive-feed little clock (6 ∷ b'P' ∷ []) body_waits (inr (refl, refl))

receive-encode_all_example :
    receive little clock (record idle { input = encode_all messages ++ (b'P' ∷ []) })
    ≡ receive little clock (record (deliver_all clock messages idle) { input = b'P' ∷ [] })
receive-encode_all_example =
    receive-encode_all little clock messages (b'P' ∷ []) idle
      (
        record { id_16 = omega arith; length_32 = omega arith; some_body = omega arith },
        (record { id_16 = omega arith; length_32 = omega arith; some_body = omega arith }, tt),
      )
      (refl, refl)
