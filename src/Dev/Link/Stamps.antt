-- ===== src/Dev/Link/Stamps.antt =====
-- The time that a record takes from the data of its block.
use mathlib.Core.List.{append_assoc}
use pscdrv.Common.{
  ℕ, List, ◌++◌, length, take, drop, true, some, ◌≡◌, refl, sym, ◌<◌, ◌≤◌, ◌+◌, ◌-◌, ◌%◌, ◌^◌,
  arith, length-append, drop-append_length, ltb, if◌then◌else◌,
}
use pscdrv.Wire.{Endian, to_be}
use pscdrv.Recv.Frames.{decode32}
use pscdrv.Block.{Block}
use pscdrv.Psc.State.{Psc}
use pscdrv.Dev.Link.{Priv, block_of, from_data, from_receipt, epics_epoch, set_rec_timestamp}

-- The bytes of a time: seconds past the POSIX epoch and nanoseconds, in network order.
abbrev pub time_bytes : ℕ → ℕ → List ℕ
time_bytes sec ns = to_be 4 sec ++ to_be 4 ns

-- A record that wants the device's time and names a place in its block, of fewer than 2 ^ 64 bytes, gets
-- the time that stands there in network order, if at least one byte follows it; if the block ends
-- with the time, it gets the time of receipt instead. The time is not before the EPICS epoch, its parts
-- have 32 bits, and the record's seconds are those from that epoch on.
set_rec_timestamp-time_bytes :
    (host : Endian) (v : Priv) (p : Psc) (b : Block) (pre rest : List ℕ) (sec ns : ℕ)
    → block_of v p ≡ some b
    → v.time_from_block ≡ true
    → b.data_bytes ≡ pre ++ time_bytes sec ns ++ rest
    → length pre ≡ v.tsoffset
    → length b.data_bytes < 2 ^ 64
    → epics_epoch ≤ sec
    → sec < 2 ^ 32
    → ns < 2 ^ 32
    → set_rec_timestamp host true v p
      ≡ some (
          some (
            if ltb 0 (length rest)
            then from_data (sec - epics_epoch) ns
            else from_receipt b.rxtime))
unfolding set_rec_timestamp
set_rec_timestamp-time_bytes host v p b pre rest sec ns here wanted holds place size past s n =
    let long : length b.data_bytes ≡ length pre + 8 + length rest = rw holds (
      omega (
        arith,
        length-append (pre ++ time_bytes sec ns) rest,
        length-append pre (time_bytes sec ns),
      )) in
    let sum : (v.tsoffset + 8) % 2 ^ 64 ≡ length pre + 8 = omega (arith, long, place, size) in
    let bytes : take 8 (drop v.tsoffset b.data_bytes) ≡ time_bytes sec ns =
      rw
        (
          holds,
          sym place,
          append_assoc pre (time_bytes sec ns) rest,
          drop-append_length pre (time_bytes sec ns ++ rest),
        )
        refl in
    let seconds : (sec + 2 ^ 32 - epics_epoch) % 2 ^ 32 ≡ sec - epics_epoch = omega arith in
    let enough : ltb (length pre + 8) (length b.data_bytes) ≡ ltb 0 (length rest) = ground arith in
    rw (here, wanted, sum, enough, bytes, decode32 host sec s, decode32 host ns n, seconds)
      (ground arith)
