-- ===== src/Table/Pack.antt =====
-- `sub10kPack__` of pscApp/src/psctbl.cpp: a table in the form of the power supply.
pub mod Words
use pscdrv.Common.{
  ℕ, zero, suc, List, [], ◌∷◌, ◌++◌, length, take, replicate, overwrite_at, map, Bool, true, false,
  if◌then◌else◌, ltb, ◌*◌, ◌/◌, ◌%◌, ◌^◌, ◌-◌,
}
use pscdrv.Wire.{Endian, load, store}
use pscdrv.Floating.{Floating}

-- `maxPscPointCount`, and the bytes of a table.
abbrev pub max_psc_point_count : ℕ
max_psc_point_count = 10860

-- `to_network_byte_order32`: the value whose bytes in memory are those of the argument, the highest
-- first.
unfoldable pub to_network_byte_order32 : Endian → ℕ → ℕ
to_network_byte_order32 host v =
    load host (v / 2 ^ 24 % 256 ∷ v / 2 ^ 16 % 256 ∷ v / 2 ^ 8 % 256 ∷ v % 256 ∷ [])

-- The bytes that one point takes in `out`.
unfoldable pub word_bytes : Endian → ℕ → List ℕ
unfolding to_network_byte_order32
word_bytes host v = store host 4 (to_network_byte_order32 host v)

unfoldable pub words_bytes : Endian → List ℕ → List ℕ
unfolding word_bytes
words_bytes host [] = []
words_bytes host (v ∷ vs) = word_bytes host v ++ words_bytes host vs

-- `tmp` after the loop over the points.
abbrev pub last_or : ℕ → List ℕ → ℕ
last_or d [] = d
last_or d (v ∷ vs) = last_or v vs

module _ (fl : Floating) where
  open fl use {Float}

  -- `(int)(tmpF+0.5)`, where `tmpF` is the point in steps of the converter, as a float.
  unfoldable pub code : Bool → Float → ℕ
  code unipolar x =
      let coeff = fl.literal "0.000009536752259" in
      let steps =
        if unipolar
        then fl.div (fl.widen x) coeff
        else fl.div (fl.add (fl.widen x) (fl.literal "10.0")) (fl.mul coeff (fl.literal "2.0")) in
      fl.to_int (fl.add (fl.widen (fl.narrow steps)) (fl.literal "0.5"))

  -- The words of both loops; `points` is `maxPscPointCount`.
  unfoldable pub pack_words : ℕ → Bool → List Float → List ℕ
  unfolding code
  pack_words points unipolar inp =
      let codes = map (code unipolar) inp in
      codes ++ replicate (points - length inp) (last_or 0 codes)

  -- `out` after the call, where its memory holds `maxPscPointCount` words and the points are no more.
  unfoldable pub sub10k_pack : Endian → Bool → List Float → List ℕ
  unfolding pack_words words_bytes
  sub10k_pack host unipolar inp =
      overwrite_at 43436 (0xff ∷ 0xff ∷ 0xff ∷ 0xff ∷ []) (
        overwrite_at 0 (0xff ∷ []) (words_bytes host (pack_words max_psc_point_count unipolar inp)))
