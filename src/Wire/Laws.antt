-- ===== src/Wire/Laws.antt =====
-- The conversions of Wire read and write network order, and where they do not.
use pscdrv.Common.{
  ℕ, ◌^◌, ◌<◌, ◌≡◌, refl, ◌≢◌, ◌⊎◌, List, [], ◌∷◌, length, length-take, take, take_all, All, arith,
}
use pscdrv.Wire.{
  Endian, little, big, Width, w8, w16, w32, w64, sizeof, modulus, from_be, to_be, load, store, hton,
  bytes2val,
}

abbrev pub IsByte : ℕ → Type 0
IsByte b = b < 256

bytes2val16 :
    (host : Endian) (a b : ℕ)
    → IsByte a
    → IsByte b
    → bytes2val host w16 (a ∷ b ∷ []) ≡ from_be 0 (a ∷ b ∷ [])
unfolding bytes2val
bytes2val16 little a b ha hb = omega arith
bytes2val16 big a b ha hb = omega arith

bytes2val32 :
    (host : Endian) (a b c d : ℕ)
    → IsByte a
    → IsByte b
    → IsByte c
    → IsByte d
    → bytes2val host w32 (a ∷ b ∷ c ∷ d ∷ []) ≡ from_be 0 (a ∷ b ∷ c ∷ d ∷ [])
unfolding bytes2val
bytes2val32 little a b c d ha hb hc hd = omega arith
bytes2val32 big a b c d ha hb hc hd = omega arith

store-hton32 : (host : Endian) (v : ℕ) → v < 2 ^ 32 → store host 4 (hton host w32 v) ≡ to_be 4 v
unfolding hton
store-hton32 little v h = ground arith
store-hton32 big v h = refl

store-hton64 : (v : ℕ) → v < 2 ^ 64 → store little 8 (hton little w64 v) ≡ to_be 8 v
unfolding hton
store-hton64 v h = ground arith

-- One lemma for each width, over the list; a list of another length is refuted.
from_be_w8 :
    (host : Endian) (bs : List ℕ)
    → length bs ≡ 1
    → All IsByte bs
    → bytes2val host w8 bs ≡ from_be 0 bs
unfolding bytes2val
from_be_w8 little [] len all = absurd (omega arith)
from_be_w8 little (a ∷ []) len all = omega arith
from_be_w8 little (a ∷ i ∷ bs) len all = absurd (omega arith)
from_be_w8 big [] len all = absurd (omega arith)
from_be_w8 big (a ∷ []) len all = omega arith
from_be_w8 big (a ∷ i ∷ bs) len all = absurd (omega arith)

from_be_w16 :
    (host : Endian) (bs : List ℕ)
    → length bs ≡ 2
    → All IsByte bs
    → bytes2val host w16 bs ≡ from_be 0 bs
from_be_w16 host [] len all = absurd (omega arith)
from_be_w16 host (a ∷ []) len all = absurd (omega arith)
from_be_w16 host (a ∷ b ∷ []) len all = bytes2val16 host a b all.0 all.1.0
from_be_w16 host (a ∷ b ∷ i ∷ bs) len all = absurd (omega arith)

from_be_w32 :
    (host : Endian) (bs : List ℕ)
    → length bs ≡ 4
    → All IsByte bs
    → bytes2val host w32 bs ≡ from_be 0 bs
from_be_w32 host [] len all = absurd (omega arith)
from_be_w32 host (a ∷ []) len all = absurd (omega arith)
from_be_w32 host (a ∷ b ∷ []) len all = absurd (omega arith)
from_be_w32 host (a ∷ b ∷ c ∷ []) len all = absurd (omega arith)
from_be_w32 host (a ∷ b ∷ c ∷ d ∷ []) len all =
    bytes2val32 host a b c d all.0 all.1.0 all.1.1.0 all.1.1.1.0
from_be_w32 host (a ∷ b ∷ c ∷ d ∷ i ∷ bs) len all = absurd (omega arith)

from_be_w64 : (bs : List ℕ) → length bs ≡ 8 → All IsByte bs → bytes2val little w64 bs ≡ from_be 0 bs
unfolding bytes2val
from_be_w64 [] len all = absurd (omega arith)
from_be_w64 (a ∷ []) len all = absurd (omega arith)
from_be_w64 (a ∷ b ∷ []) len all = absurd (omega arith)
from_be_w64 (a ∷ b ∷ c ∷ []) len all = absurd (omega arith)
from_be_w64 (a ∷ b ∷ c ∷ d ∷ []) len all = absurd (omega arith)
from_be_w64 (a ∷ b ∷ c ∷ d ∷ e ∷ []) len all = absurd (omega arith)
from_be_w64 (a ∷ b ∷ c ∷ d ∷ e ∷ f ∷ []) len all = absurd (omega arith)
from_be_w64 (a ∷ b ∷ c ∷ d ∷ e ∷ f ∷ g ∷ []) len all = absurd (omega arith)
from_be_w64 (a ∷ b ∷ c ∷ d ∷ e ∷ f ∷ g ∷ h ∷ []) len all = omega arith
from_be_w64 (a ∷ b ∷ c ∷ d ∷ e ∷ f ∷ g ∷ h ∷ i ∷ bs) len all = absurd (omega arith)

-- Bytes in network order read back as their big-endian value: at every width on a little-endian
-- host, and at every width but 8 bytes on a big-endian host.
pub bytes2val-from_be :
    (host : Endian) (w : Width) (bs : List ℕ)
    → (w ≢ w64) ⊎ (host ≡ little)
    → length bs ≡ sizeof w
    → All IsByte bs
    → bytes2val host w bs ≡ from_be 0 bs
bytes2val-from_be host w8 bs ok len all = from_be_w8 host bs len all
bytes2val-from_be host w16 bs ok len all = from_be_w16 host bs len all
bytes2val-from_be host w32 bs ok len all = from_be_w32 host bs len all
bytes2val-from_be little w64 bs ok len all = from_be_w64 bs len all
bytes2val-from_be big w64 bs ok len all = ground arith

-- On a big-endian host an 8 byte value is read with its two words exchanged: for every word `h`
-- of four bytes that is followed by a word `l`, the value is that of `l` followed by `h`.
pub bytes2val_big_w64 :
    (a b c d e f g h : ℕ)
    → All IsByte (a ∷ b ∷ c ∷ d ∷ e ∷ f ∷ g ∷ h ∷ [])
    → bytes2val big w64 (a ∷ b ∷ c ∷ d ∷ e ∷ f ∷ g ∷ h ∷ [])
      ≡ from_be 0 (e ∷ f ∷ g ∷ h ∷ a ∷ b ∷ c ∷ d ∷ [])
unfolding bytes2val
bytes2val_big_w64 a b c d e f g h all = omega arith

-- `hton` is its own inverse on every host and at every width.
pub hton-hton :
    (host : Endian) (w : Width) (v : ℕ) → v < modulus w → hton host w (hton host w v) ≡ v
unfolding hton
hton-hton host w8 v h = refl
hton-hton little w16 v h = omega arith
hton-hton big w16 v h = refl
hton-hton little w32 v h = omega arith
hton-hton big w32 v h = refl
hton-hton little w64 v h = omega arith
hton-hton big w64 v h = omega arith

hton-lt : (host : Endian) (w : Width) (v : ℕ) → v < modulus w → hton host w v < modulus w
unfolding hton
hton-lt host w8 v h = h
hton-lt little w16 v h = omega arith
hton-lt big w16 v h = h
hton-lt little w32 v h = omega arith
hton-lt big w32 v h = h
hton-lt little w64 v h = omega arith
hton-lt big w64 v h = omega arith

load-store :
    (host : Endian) (w : Width) (v : ℕ)
    → v < modulus w
    → load host (take (sizeof w) (store host (sizeof w) v)) ≡ v
load-store little w8 v h = omega arith
load-store big w8 v h = omega arith
load-store little w16 v h = omega arith
load-store big w16 v h = omega arith
load-store little w32 v h = omega arith
load-store big w32 v h = omega arith
load-store little w64 v h = omega arith
load-store big w64 v h = omega arith

-- A value written with `hton` reads back with `bytes2val`: on every host and at every width.
pub bytes2val-store :
    (host : Endian) (w : Width) (v : ℕ)
    → v < modulus w
    → bytes2val host w (store host (sizeof w) (hton host w v)) ≡ v
unfolding bytes2val
bytes2val-store host w v h =
    rw (load-store host w (hton host w v) (hton-lt host w v h)) (hton-hton host w v h)

pub length-store : (host : Endian) (w : Width) (v : ℕ) → length (store host (sizeof w) v) ≡ sizeof w
length-store little w8 v = refl
length-store little w16 v = refl
length-store little w32 v = refl
length-store little w64 v = refl
length-store big w8 v = refl
length-store big w16 v = refl
length-store big w32 v = refl
length-store big w64 v = refl

-- Only the first `sizeof(T)` bytes count.
pub bytes2val-take :
    (host : Endian) (w : Width) (bs : List ℕ)
    → bytes2val host w (take (sizeof w) bs) ≡ bytes2val host w bs
unfolding bytes2val
bytes2val-take host w bs =
    rw (take_all (sizeof w) (take (sizeof w) bs) (omega (arith, length-take (sizeof w) bs)))
