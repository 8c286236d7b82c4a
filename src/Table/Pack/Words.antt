-- ===== src/Table/Pack/Words.antt =====
-- The bytes of a packed table.
use pscdrv.Common.{
  ℕ, zero, suc, List, [], ◌∷◌, ◌++◌, length, replicate, get_or, overwrite_at, map, Bool, ◌≡◌, refl,
  ap, ◌∙◌, arith, ◌+◌, ◌-◌, ◌*◌, ◌<◌, ◌≤◌, inl, inr, length-append, length-replicate,
  length-overwrite_at, get_or-overwrite_at_ne, get_or-append_lt, get_or-append_ge, get_or-replicate,
  length-map, min, ltb, Bool-cases,
}
use pscdrv.Wire.{Endian, little, big, to_be}
use pscdrv.Floating.{Floating}
use pscdrv.Table.Pack.{
  word_bytes, words_bytes, last_or, code, pack_words, sub10k_pack, max_psc_point_count,
}

word_bytes-to_be : (host : Endian) (v : ℕ) → word_bytes host v ≡ to_be 4 v
unfolding word_bytes
word_bytes-to_be little v = ground arith
word_bytes-to_be big v = ground arith

length-words_bytes : (host : Endian) (vs : List ℕ) → length (words_bytes host vs) ≡ 4 * length vs
unfolding words_bytes
length-words_bytes host [] = refl
length-words_bytes host (v ∷ vs) =
    rw (word_bytes-to_be host v) (omega (arith, length-words_bytes host vs))

-- Byte `j` of word `i`.
get_or-words_bytes :
    (host : Endian) (vs : List ℕ) (i j : ℕ)
    → j < 4
    → i < length vs
    → get_or (words_bytes host vs) (4 * i + j) 0 ≡ get_or (to_be 4 (get_or vs i 0)) j 0
unfolding words_bytes
get_or-words_bytes host [] i j h k = absurd (omega arith)
get_or-words_bytes host (v ∷ vs) zero j h k =
    let z : 4 * 0 + j ≡ j = omega arith in
    rw (word_bytes-to_be host v) (
      ap (λ n. get_or (to_be 4 v ++ words_bytes host vs) n 0) z
      ∙ get_or-append_lt (to_be 4 v) (words_bytes host vs) j 0 h)
get_or-words_bytes host (v ∷ vs) (suc i) j h k =
    let e : 4 * suc i + j ≡ suc (suc (suc (suc (4 * i + j)))) = omega arith in
    rw (e, word_bytes-to_be host v) (get_or-words_bytes host vs i j h (omega arith))

last_or-get_or : (d : ℕ) (vs : List ℕ) → 0 < length vs → last_or d vs ≡ get_or vs (length vs - 1) 0
last_or-get_or d [] h = absurd (omega arith)
last_or-get_or d (v ∷ []) h = refl
last_or-get_or d (v ∷ w ∷ vs) h =
    let e : suc (suc (length vs)) - 1 ≡ suc (suc (length vs) - 1) = omega arith in
    rw e (last_or-get_or v (w ∷ vs) (omega arith))

module _ (fl : Floating) (unipolar : Bool) where
  length-pack_words :
      (points : ℕ) (inp : List fl.Float)
      → length inp ≤ points
      → length (pack_words fl points unipolar inp) ≡ points
  unfolding pack_words
  length-pack_words points inp h =
      let codes = map (code fl unipolar) inp in
      omega (
        arith,
        length-append codes (replicate (points - length inp) (last_or 0 codes)),
        length-map (code fl unipolar) inp,
        length-replicate (points - length inp) (last_or 0 codes),
      )

  -- The words are the codes of the points, and then that of the last point.
  pub get_or-pack_words :
      (points i : ℕ) (inp : List fl.Float)
      → 0 < length inp
      → length inp ≤ points
      → i < points
      → get_or (pack_words fl points unipolar inp) i 0
        ≡ get_or (map (code fl unipolar) inp) (min i (length inp - 1)) 0
  unfolding pack_words
  get_or-pack_words points i inp some_point h k =
      let codes = map (code fl unipolar) inp in
      let fill = replicate (points - length inp) (last_or 0 codes) in
      let n = length-map (code fl unipolar) inp in
      elim (Bool-cases (ltb i (length inp))) [
        | inl inside ↦
            let m : min i (length inp - 1) ≡ i = ground arith in
            rw m (get_or-append_lt codes fill i 0 (ground arith))
        | inr beyond ↦
            let m : min i (length inp - 1) ≡ length codes - 1 = ground arith in
            rw m (
              get_or-append_ge codes fill i 0 (ground arith)
              ∙ get_or-replicate (points - length inp) (i - length codes) (last_or 0 codes) 0
                  (ground arith)
              ∙ last_or-get_or 0 codes (omega arith))
      ]

  pub length-sub10k_pack :
      (host : Endian) (inp : List fl.Float)
      → length inp ≤ max_psc_point_count
      → length (sub10k_pack fl host unipolar inp) ≡ 43440
  unfolding sub10k_pack
  length-sub10k_pack host inp h =
      let words = pack_words fl max_psc_point_count unipolar inp in
      length-overwrite_at 43436 (0xff ∷ 0xff ∷ 0xff ∷ 0xff ∷ [])
        (overwrite_at 0 (0xff ∷ []) (words_bytes host words))
      ∙ length-overwrite_at 0 (0xff ∷ []) (words_bytes host words)
      ∙ length-words_bytes host words
      ∙ omega (arith, length-pack_words max_psc_point_count inp h)

  -- All but the first byte and the last word are those of the words.
  pub get_or-sub10k_pack :
      (host : Endian) (inp : List fl.Float) (i j : ℕ)
      → 0 < length inp
      → length inp ≤ max_psc_point_count
      → 0 < 4 * i + j
      → 4 * i + j < 43436
      → j < 4
      → get_or (sub10k_pack fl host unipolar inp) (4 * i + j) 0
        ≡ get_or (to_be 4 (get_or (map (code fl unipolar) inp) (min i (length inp - 1)) 0)) j 0
  unfolding sub10k_pack
  get_or-sub10k_pack host inp i j some_point h lo hi k =
      let words = pack_words fl max_psc_point_count unipolar inp in
      get_or-overwrite_at_ne 43436 (0xff ∷ 0xff ∷ 0xff ∷ 0xff ∷ [])
        (overwrite_at 0 (0xff ∷ []) (words_bytes host words)) (4 * i + j) 0 (inl hi)
      ∙ get_or-overwrite_at_ne 0 (0xff ∷ []) (words_bytes host words) (4 * i + j) 0 (inr lo)
      ∙ get_or-words_bytes host words i j k
          (omega (arith, length-pack_words max_psc_point_count inp h))
      ∙ ap (λ v. get_or (to_be 4 v) j 0)
          (get_or-pack_words max_psc_point_count i inp some_point h (omega arith))
