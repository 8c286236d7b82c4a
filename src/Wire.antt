-- ===== src/Wire.antt =====
-- Byte order: how a host keeps a number in memory, and the `hton`, `ntoh` and `bytes2val` of
-- coreApp/src/psc/devcommon.h with the swaps they are built from. A value of C type is its bit
-- pattern, a number below 2 ^ (8 * sizeof); `htons` and `htonl` are written out from what POSIX says.
pub mod Laws
use pscdrv.Common.{ℕ, zero, suc, ◌+◌, ◌*◌, ◌/◌, ◌%◌, ◌^◌, List, [], ◌∷◌, ◌++◌, take}

-- The byte order of the machine that runs the driver.
pub data Endian : Type 0 where
  little big : Endian

-- `sizeof(T)` of the types that the templates are used at.
pub data Width : Type 0 where
  w8 w16 w32 w64 : Width

abbrev pub sizeof : Width → ℕ
sizeof w8 = 1
sizeof w16 = 2
sizeof w32 = 4
sizeof w64 = 8

abbrev pub modulus : Width → ℕ
modulus w8 = 2 ^ 8
modulus w16 = 2 ^ 16
modulus w32 = 2 ^ 32
modulus w64 = 2 ^ 64

-- Network order: the most significant byte first.
abbrev pub from_be : ℕ → List ℕ → ℕ
from_be acc [] = acc
from_be acc (b ∷ bs) = from_be (acc * 256 + b) bs

abbrev pub to_be : ℕ → ℕ → List ℕ
to_be zero v = []
to_be (suc n) v = to_be n (v / 256) ++ (v % 256 ∷ [])

abbrev pub from_le : List ℕ → ℕ
from_le [] = 0
from_le (b ∷ bs) = b + 256 * from_le bs

abbrev pub to_le : ℕ → ℕ → List ℕ
to_le zero v = []
to_le (suc n) v = v % 256 ∷ to_le n (v / 256)

-- What a load of the bytes gives, and what a store of a number writes.
abbrev pub load : Endian → List ℕ → ℕ
load little bs = from_le bs
load big bs = from_be 0 bs

abbrev pub store : Endian → ℕ → ℕ → List ℕ
store little n v = to_le n v
store big n v = to_be n v

swap16 : ℕ → ℕ
swap16 v = v % 256 * 256 + v / 256 % 256

swap32 : ℕ → ℕ
swap32 v = v % 256 * 2 ^ 24 + v / 2 ^ 8 % 256 * 2 ^ 16 + v / 2 ^ 16 % 256 * 2 ^ 8 + v / 2 ^ 24 % 256

unfoldable pub htons : Endian → ℕ → ℕ
unfolding swap16
htons little v = swap16 v
htons big v = v

unfoldable pub htonl : Endian → ℕ → ℕ
unfolding swap32
htonl little v = swap32 v
htonl big v = v

-- `nswap<8>::op`: the low word, swapped, becomes the high word on every host.
nswap8 : Endian → ℕ → ℕ
unfolding htonl
nswap8 host v =
    let h = v / 2 ^ 32 % 2 ^ 32 in
    let l = v % 2 ^ 32 in let out = htonl host l * 2 ^ 32 % 2 ^ 64 in out + htonl host h

nswap : Endian → Width → ℕ → ℕ
unfolding htons htonl nswap8
nswap host w8 v = v
nswap host w16 v = htons host v
nswap host w32 v = htonl host v
nswap host w64 v = nswap8 host v

unfoldable pub hton : Endian → Width → ℕ → ℕ
unfolding nswap
hton host w v = nswap host w v

unfoldable pub ntoh : Endian → Width → ℕ → ℕ
unfolding hton
ntoh host w v = hton host w v

-- `memcpy` of `sizeof(T)` bytes into a value, then `ntoh`.
unfoldable pub bytes2val : Endian → Width → List ℕ → ℕ
unfolding ntoh
bytes2val host w bytes = ntoh host w (load host (take (sizeof w) bytes))
