-- ===== src/Dev/Reg/Fields.antt =====
-- Reading and writing a register of a block.
use pscdrv.Common.{
  ℕ, zero, suc, List, [], ◌∷◌, length, take, drop, get_or, overwrite_at, true, false, some,
  if◌then◌else◌, ◌+◌, ◌<◌, ◌≤◌, ◌≡◌, ◌≢◌, ◌⊎◌, inl, inr, sym, ap, ◌∙◌, arith, All, lookup-insert,
  length-take, length-drop, length-overwrite_at, take-drop-overwrite_at, get_or-overwrite_at_ne,
  Bool-cases,
}
use pscdrv.Wire.{Endian, little, Width, w64, sizeof, modulus, store, hton, bytes2val, from_be}
use pscdrv.Wire.Laws.{IsByte, bytes2val-from_be, bytes2val-store, bytes2val-take, length-store}
use pscdrv.Block.{Block}
use pscdrv.Outcome.{soft_alarm, invalid_alarm, rec_alarm, read_alarm, write_alarm}
use pscdrv.Psc.State.{Psc}
use pscdrv.Dev.Link.{Priv, block_of, set_block}
use pscdrv.Dev.Reg.{refused, got, out_of_block, read_to_field, write_from_field}

abbrev pub Fits : Priv → Block → Width → Type 0
Fits v b w = v.offset + sizeof w ≤ length b.data_bytes

out_of_block_iff :
    (v : Priv) (b : Block) (w : Width)
    → (Fits v b w × (out_of_block v b w ≡ false)) ⊎ (¬ Fits v b w × (out_of_block v b w ≡ true))
out_of_block_iff v b w = elim (Bool-cases (out_of_block v b w)) [
  | inl e ↦ inr ((λ h. ground arith), e)
  | inr e ↦ inl (ground arith, e)
]

All-take : (n : ℕ) (xs : List ℕ) → All IsByte xs → All IsByte (take n xs)
All-take zero xs h = tt
All-take (suc n) [] h = tt
All-take (suc n) (x ∷ xs) h = (h.0, All-take n xs h.1)

All-drop : (n : ℕ) (xs : List ℕ) → All IsByte xs → All IsByte (drop n xs)
All-drop zero xs h = h
All-drop (suc n) [] h = tt
All-drop (suc n) (x ∷ xs) h = All-drop n xs h.1

bytes2val-drop :
    (host : Endian) (w : Width) (v : Priv) (b : Block)
    → (w ≢ w64) ⊎ (host ≡ little)
    → All IsByte b.data_bytes
    → Fits v b w
    → bytes2val host w (drop v.offset b.data_bytes)
      ≡ from_be 0 (take (sizeof w) (drop v.offset b.data_bytes))
bytes2val-drop host w v b ok bytes fits =
    let rest = drop v.offset b.data_bytes in
    sym (bytes2val-take host w rest)
    ∙ bytes2val-from_be host w (take (sizeof w) rest) ok
        (omega (arith, length-take (sizeof w) rest, length-drop v.offset b.data_bytes))
        (All-take (sizeof w) rest (All-drop v.offset b.data_bytes bytes))

-- A register of a known block on a connected PSC reads as the big-endian value of its bytes at the
-- record's offset if all of them lie in the block, and is refused with an invalid SOFT alarm if not:
-- for every width but 8 bytes on a big-endian host.
pub read_to_field-from_be :
    (host : Endian) (w : Width) (v : Priv) (p : Psc) (b : Block)
    → (w ≢ w64) ⊎ (host ≡ little)
    → block_of v p ≡ some b
    → All IsByte b.data_bytes
    → p.connected ≡ true
    → (Fits v b w
        × (read_to_field host w v p
            ≡ got [] (from_be 0 (take (sizeof w) (drop v.offset b.data_bytes)))))
      ⊎ (¬ Fits v b w × (read_to_field host w v p ≡ refused (rec_alarm soft_alarm invalid_alarm)))
unfolding read_to_field
read_to_field-from_be host w v p b ok here bytes c = elim (out_of_block_iff v b w) [
  | inl (fits, e) ↦
      inl (
        fits,
        rw (here, read_to_field, e, c) (ap (got []) (bytes2val-drop host w v b ok bytes fits)),
      )
  | inr (no_fit, e) ↦ inr (no_fit, rw (here, read_to_field, e))
]

block_of-set_block :
    (v : Priv) (p : Psc) (b b' : Block)
    → block_of v p ≡ some b
    → block_of v (set_block v b' p) ≡ some b'
block_of-set_block v p b b' here =
    ground (
      arith,
      lookup-insert v.bid v.bid b' p.recv_blocks,
      lookup-insert v.bid v.bid b' p.send_blocks,
    )

connected-set_block : (v : Priv) (p : Psc) (b : Block) → (set_block v b p).connected ≡ p.connected
connected-set_block v p b = ground arith

-- The block after a write.
abbrev pub written : Endian → Width → Priv → ℕ → Block → Block
written host w v x b = record b {
  data_bytes = overwrite_at v.offset (store host (sizeof w) (hton host w x)) b.data_bytes;
}

-- A write of a register that lies in its block succeeds; then the register reads as the value that
-- was written, on any host and at any width, and no byte of the block outside it has changed.
pub write_from_field-read_to_field :
    (host : Endian) (w : Width) (v : Priv) (p : Psc) (b : Block) (x : ℕ)
    → block_of v p ≡ some b
    → Fits v b w
    → x < modulus w
    → let b' = written host w v x b in
      let q = set_block v b' p in
      (write_from_field host w v p x
        ≡ got (if p.connected then [] else (write_alarm, invalid_alarm) ∷ []) q)
      × (read_to_field host w v q
          ≡ got (if p.connected then [] else (read_alarm, invalid_alarm) ∷ []) x)
      × (block_of v q ≡ some b')
      × (length b'.data_bytes ≡ length b.data_bytes)
      × ((j d : ℕ)
          → (j < v.offset) ⊎ (v.offset + sizeof w ≤ j)
          → get_or b'.data_bytes j d ≡ get_or b.data_bytes j d)
unfolding write_from_field read_to_field
write_from_field-read_to_field host w v p b x here fits small = (
  ground (arith, out_of_block_iff v b w),
  read_back,
  block_of-set_block v p b b' here,
  length-overwrite_at v.offset bytes b.data_bytes,
  λ j d out.
      get_or-overwrite_at_ne v.offset bytes b.data_bytes j d
        (omega (arith, length-store host w (hton host w x))),
)
  where
    bytes : List ℕ
    bytes = store host (sizeof w) (hton host w x)

    b' : Block
    b' = written host w v x b

    value : bytes2val host w (drop v.offset b'.data_bytes) ≡ x
    value =
        sym (bytes2val-take host w (drop v.offset b'.data_bytes))
        ∙ ap (λ n. bytes2val host w (take n (drop v.offset b'.data_bytes)))
            (sym (length-store host w (hton host w x)))
        ∙ ap (bytes2val host w) (
            take-drop-overwrite_at v.offset bytes b.data_bytes
              (omega (arith, length-store host w (hton host w x))))
        ∙ bytes2val-store host w x small

    read_back :
        read_to_field host w v (set_block v b' p)
        ≡ got (if p.connected then [] else (read_alarm, invalid_alarm) ∷ []) x
    read_back = ground (
      arith,
      block_of-set_block v p b b' here,
      connected-set_block v p b',
      out_of_block_iff v b' w,
      length-overwrite_at v.offset bytes b.data_bytes,
      value,
    )
