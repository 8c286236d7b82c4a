-- ===== src/Udp/Tests.antt =====
-- The theorems on the UDP driver at concrete datagrams.
use pscdrv.Common.{ℕ, List, [], ◌∷◌, ◌++◌, length, Option, false, true, some, ◌≡◌, refl, ◌+◌, arith}
use pscdrv.Wire.{little}
use pscdrv.Block.{Block}
use pscdrv.Recv.Frames.{Message, header_bytes, encode_all}
use pscdrv.Udp.{Udp, receive_one, drain}
use pscdrv.Recv.{Rx, idle_decoder, waiting, receive}
use pscdrv.Udp.Deliver.{Agrees, datagrams, drain-receive}
use pscdrv.Udp.Laws.{stored, receive_one-known}

abbrev clock : ℕ → Option ℕ
clock n = some (100 + n)

abbrev block_7 : Block
block_7 = record {
  code = 7;
  data_bytes = [];
  queued = false;
  listeners = [];
  count = 0;
  rxtime = 0;
}

abbrev udp : Udp
udp = record {
  connected = true;
  ukncount = 0;
  conncount = 0;
  send_blocks = [];
  recv_blocks = (7, block_7) ∷ [];
  rxscratch = 0 ∷ 0 ∷ 0 ∷ 0 ∷ 0 ∷ 0 ∷ 0 ∷ 0 ∷ 41 ∷ 42 ∷ 43 ∷ [];
  message = "";
  readings = 0;
  log = [];
}

-- The header says 3 bytes, and one comes: the block gets the two others from the datagram before.
receive_one-known_example :
    receive_one clock little true (header_bytes 7 3 ++ (1 ∷ [])) (udp, false) ≡ (
      stored clock little 7
          (1 ∷ 42 ∷ 43 ∷ [])
          block_7
          (record udp { rxscratch = header_bytes 7 3 ++ (1 ∷ 42 ∷ 43 ∷ []) }),
      false,
    )
receive_one-known_example =
    receive_one-known clock little 7 3 (1 ∷ []) block_7 udp false (omega arith) (omega arith)
      (omega arith) (omega arith) (omega arith) refl

abbrev long_message : Message
long_message = record { id = 7; body = 1 ∷ 2 ∷ 3 ∷ 4 ∷ [] }

abbrev decoder : Rx
decoder = record {
  dec = idle_decoder;
  input = [];
  recv_blocks = (7, block_7) ∷ [];
  ukncount = 0;
  readings = 0;
  log = [];
}

abbrev messages : List Message
messages = record { id = 7; body = 5 ∷ 6 ∷ [] } ∷ record { id = 300; body = 9 ∷ [] } ∷ []

drain-receive_example :
    let (v, flag) = drain clock little (datagrams messages) (udp, false) in
    (r' : Rx) × (receive little clock (record decoder { input = encode_all messages }) ≡ waiting r')
    × (r'.input ≡ [])
    × Agrees v r'
    × (flag ≡ false)
    × (length v.rxscratch ≡ 11)
drain-receive_example =
    drain-receive clock little messages udp decoder false
      (
        record { id_16 = omega arith; length_32 = omega arith; some_body = omega arith },
        (record { id_16 = omega arith; length_32 = omega arith; some_body = omega arith }, tt),
      )
      ((omega arith, omega arith), ((omega arith, omega arith), tt)) (omega arith) (refl, refl)
      (refl, refl, refl, refl)
