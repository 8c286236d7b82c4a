-- ===== src/Dev/Single/Sync.antt =====
-- Messages of a single register: what one host sends, another one takes over, and a message that
-- keeps a record from ever taking over another.
use pscdrv.Common.{
  ℕ, List, [], ◌∷◌, ◌++◌, length, take, drop, true, false, ◌≡◌, refl, sym, ◌<◌, ◌≤◌, ◌+◌, ◌^◌, ◌%◌,
  ◌⊎◌, arith, length-append, drop-append_length,
}
use pscdrv.Wire.{
  Endian, little, big, Width, w32, w64, sizeof, modulus, load, store, htonl, hton, bytes2val,
}
use pscdrv.Wire.Laws.{bytes2val-store, length-store}
use pscdrv.Block.{Block}
use pscdrv.Dev.Link.{Priv}
use pscdrv.Dev.Single.{
  SinglePriv, received_block, read_msg, too_short, value, msg_bytes, frame_size, val_at,
}

-- The listener on one block after another, while the record does not process.
abbrev pub received_all : Endian → Priv → List Block → SinglePriv → SinglePriv
received_all host v [] s = s
received_all host v (b ∷ bs) s = received_all host v bs (received_block host v b s).0

abbrev pub IsPending : SinglePriv → Type 0
IsPending s = 8 ≤ length s.sync_data

received_block-IsPending :
    (host : Endian) (v : Priv) (b : Block) (s : SinglePriv)
    → IsPending s
    → IsPending (received_block host v b s).0 × ((received_block host v b s).1 ≡ false)
unfolding received_block
received_block-IsPending host v b s h = (ground arith, ground arith)

received_all-IsPending :
    (host : Endian) (v : Priv) (bs : List Block) (s : SinglePriv)
    → IsPending s
    → IsPending (received_all host v bs s)
received_all-IsPending host v [] s h = h
received_all-IsPending host v (b ∷ bs) s h =
    received_all-IsPending host v bs _ (received_block-IsPending host v b s h).0

-- The address that a message starts with.
abbrev pub address : Endian → List ℕ → ℕ
address host bytes = htonl host (load host (take 4 bytes))

-- A block of 8 to 15 bytes with the address of a record of double values that holds no bytes yet has
-- the record process, but the record takes no value over and keeps the bytes: from then on, while the
-- listener alone runs, no block has it process again, whatever comes.
short_message_blocks :
    (host : Endian) (v : Priv) (b d : Block) (bs : List Block) (s : SinglePriv)
    → s.sync_data ≡ []
    → 8 ≤ length b.data_bytes
    → length b.data_bytes < 16
    → v.offset ≡ address host b.data_bytes
    → let t : SinglePriv = record s { sync_data = b.data_bytes } in
      (received_block host v b s ≡ (t, true))
      × (read_msg host w64 v b t ≡ too_short t)
      × ((received_block host v d (received_all host v bs t)).1 ≡ false)
unfolding received_block read_msg
short_message_blocks host v b d bs s empty long short here =
    let t : SinglePriv = record s { sync_data = b.data_bytes } in
    (
      ground arith,
      ground arith,
      (received_block-IsPending host v d _ (received_all-IsPending host v bs t long)).1,
    )

address-msg_bytes :
    (host : Endian) (w : Width) (pad : List ℕ) (offset x : ℕ)
    → offset < 2 ^ 32
    → address host (msg_bytes host w pad offset x) ≡ offset
unfolding msg_bytes htonl hton
address-msg_bytes little w pad offset x h = ground arith
address-msg_bytes big w pad offset x h = ground arith

msg_bytes_value :
    (host : Endian) (w : Width) (pad : List ℕ) (offset x : ℕ)
    → length pad + 4 ≡ val_at w
    → (drop (val_at w) (msg_bytes host w pad offset x) ≡ store host (sizeof w) (hton host w x))
      × (length (msg_bytes host w pad offset x) ≡ val_at w + sizeof w)
unfolding msg_bytes
msg_bytes_value host w pad offset x h =
    let addr = store host 4 (hton host w32 (offset % 2 ^ 32)) in
    let word = store host (sizeof w) (hton host w x) in
    let four : length addr ≡ 4 = length-store host w32 (hton host w32 (offset % 2 ^ 32)) in
    let front : val_at w ≡ length (addr ++ pad) = omega (arith, length-append addr pad, four) in
    (
      rw front (drop-append_length (addr ++ pad) word),
      omega (arith, length-append (addr ++ pad) word, front, length-store host w (hton host w x)),
    )

frame_size_wide :
    (w : Width) → (w ≡ w32) ⊎ (w ≡ w64) → (frame_size w ≡ val_at w + sizeof w) × (8 ≤ frame_size w)
frame_size_wide Width.w8 h = ground arith
frame_size_wide Width.w16 h = ground arith
frame_size_wide Width.w32 h = (refl, omega arith)
frame_size_wide Width.w64 h = (refl, omega arith)

-- What `write_msg` sends of a 4 or 8 byte value, a record of the same address and kind takes over as
-- that value on a host of the same byte order, whatever the padding holds: its listener has it
-- process, the value is the one sent, and the record is ready for the next one.
pub read_msg-msg_bytes :
    (host : Endian) (w : Width) (pad : List ℕ) (x : ℕ) (v : Priv) (b : Block) (s : SinglePriv)
    → (w ≡ w32) ⊎ (w ≡ w64)
    → length pad + 4 ≡ val_at w
    → v.offset < 2 ^ 32
    → x < modulus w
    → s.sync_data ≡ []
    → b.data_bytes ≡ msg_bytes host w pad v.offset x
    → let (t, request) = received_block host v b s in
      (request ≡ true) × (read_msg host w v b t ≡ value x (record s { sync_data = [] }))
unfolding received_block read_msg
read_msg-msg_bytes host w pad x v b s wide padded small fits empty sent =
    let (word, long) = msg_bytes_value host w pad v.offset x padded in
    let back : bytes2val host w (drop (val_at w) b.data_bytes) ≡ x =
      rw (sent, word) (bytes2val-store host w x fits) in
    let addr : v.offset ≡ address host b.data_bytes =
      rw sent (sym (address-msg_bytes host w pad v.offset x small)) in
    let size : length b.data_bytes ≡ val_at w + sizeof w = rw sent long in
    let both : (frame_size w ≡ val_at w + sizeof w) × (8 ≤ frame_size w) = frame_size_wide w wide in
    (ground arith, ground arith)
