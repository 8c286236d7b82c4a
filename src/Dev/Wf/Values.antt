-- ===== src/Dev/Wf/Values.antt =====
-- The values of a waveform on the wire and back.
use mathlib.Core.List.{append_assoc, append-nil}
use pscdrv.Common.{
  ℕ, zero, suc, List, [], ◌∷◌, ◌++◌, length, take, drop, ◌≡◌, refl, sym, ap, ◌∙◌, ◌<◌, ◌≤◌, ◌+◌,
  ◌-◌, ◌*◌, ◌%◌, ◌^◌, arith, All, ltb, true, length-append, take-append_length, drop-append_length,
}
use pscdrv.Wire.{Endian, Width, w16, sizeof, modulus, store, hton, bytes2val}
use pscdrv.Wire.Laws.{bytes2val-store, bytes2val-take, length-store}
use pscdrv.Dev.Wf.{read_values, wire_values}

abbrev value_bytes : Endian → Width → ℕ → List ℕ
value_bytes host w x = store host (sizeof w) (hton host w x)

bytes2val-append :
    (host : Endian) (w : Width) (x : ℕ) (rest : List ℕ)
    → x < modulus w
    → bytes2val host w (value_bytes host w x ++ rest) ≡ x
bytes2val-append host w x rest h =
    let bytes = value_bytes host w x in
    let n = length-store host w (hton host w x) in
    sym (bytes2val-take host w (bytes ++ rest))
    ∙ ap (λ k. bytes2val host w (take k (bytes ++ rest))) (sym n)
    ∙ ap (bytes2val host w) (take-append_length bytes rest)
    ∙ bytes2val-store host w x h

sizeof_pos : (w : Width) → (0 < sizeof w) × (sizeof w ≤ 8)
sizeof_pos Width.w8 = omega arith
sizeof_pos Width.w16 = omega arith
sizeof_pos Width.w32 = omega arith
sizeof_pos Width.w64 = omega arith

module _ (host : Endian) (w : Width) (beyond : List ℕ) where
  -- One value behind the bytes already read, and the next place.
  read_values-cons :
      (buf pre rest : List ℕ) (x n : ℕ)
      → buf ≡ pre ++ value_bytes host w x ++ rest
      → x < modulus w
      → length buf < 2 ^ 64
      → read_values host w (sizeof w) buf beyond (suc n) (length pre)
        ≡ x ∷ read_values host w (sizeof w) buf beyond n (length (pre ++ value_bytes host w x))
  unfolding read_values
  read_values-cons buf pre rest x n e h size =
      let v = value_bytes host w x in
      let n_v : length v ≡ sizeof w = length-store host w (hton host w x) in
      let value : bytes2val host w (drop (length pre) (buf ++ beyond)) ≡ x =
        rw
          (
            e,
            append_assoc (pre ++ v) rest beyond,
            append_assoc pre v (rest ++ beyond),
            drop-append_length pre (v ++ (rest ++ beyond)),
          )
          (bytes2val-append host w x (rest ++ beyond) h) in
      let sum : length buf ≡ length pre + sizeof w + length rest =
        rw e (omega (arith, length-append (pre ++ v) rest, length-append pre v, n_v)) in
      let pos = sizeof_pos w in
      let test : ltb (length pre) (length buf) ≡ true = ground (arith, sum, pos) in
      let src : (length pre + sizeof w) % 2 ^ 64 ≡ length (pre ++ v) =
        omega (arith, length-append pre v, n_v, sum, size) in
      rw (test, value, src) refl

  -- All the values behind some bytes, as far as the record has room.
  read_values-wire :
      (vs : List ℕ) (buf pre rest : List ℕ) (n : ℕ)
      → buf ≡ pre ++ wire_values host w vs ++ rest
      → All (λ x. x < modulus w) vs
      → length buf < 2 ^ 64
      → read_values host w (sizeof w) buf beyond (length vs + n) (length pre)
        ≡ vs ++ read_values host w (sizeof w) buf beyond n (length (pre ++ wire_values host w vs))
  unfolding wire_values
  read_values-wire [] buf pre rest n e h size =
      let same : 0 + n ≡ n = omega arith in rw (append-nil pre, same) refl
  read_values-wire (x ∷ vs) buf pre rest n e h size =
      let v = value_bytes host w x in
      let ws = wire_values host w vs in
      let count : suc (length vs) + n ≡ suc (length vs + n) = omega arith in
      let e' : buf ≡ pre ++ v ++ ws ++ rest =
        e ∙ ap (λ ys. ys ++ rest) (sym (append_assoc pre v ws)) in
      rw
        (
          count,
          read_values-cons buf pre (ws ++ rest) x (length vs + n)
              (e' ∙ append_assoc (pre ++ v) ws rest) h.0 size,
          read_values-wire vs buf (pre ++ v) rest n e' h.1 size,
          append_assoc pre v ws,
        )
        refl

  read_values_end :
      (buf : List ℕ) (n src : ℕ)
      → length buf ≤ src
      → read_values host w (sizeof w) buf beyond n src ≡ []
  unfolding read_values
  read_values_end buf zero src h = refl
  read_values_end buf (suc n) src h = ground arith

  length-wire_values : (vs : List ℕ) → length (wire_values host w vs) ≡ length vs * sizeof w
  unfolding wire_values
  length-wire_values [] = omega arith
  length-wire_values (x ∷ vs) = omega (
    arith,
    length-append (value_bytes host w x) (wire_values host w vs),
    length-store host w (hton host w x),
    length-wire_values vs,
  )

-- The values of a waveform, written to the wire and read back into a record with room for them, are
-- the same, and the read takes nothing from behind the block: on any host and at any width, for
-- fewer than 2 ^ 64 bytes.
pub read_values-wire_values :
    (host : Endian) (w : Width) (beyond : List ℕ) (vs : List ℕ) (nelm : ℕ)
    → All (λ x. x < modulus w) vs
    → length vs ≤ nelm
    → length (wire_values host w vs) < 2 ^ 64
    → read_values host w (sizeof w) (wire_values host w vs) beyond nelm 0 ≡ vs
read_values-wire_values host w beyond vs nelm h room size =
    let buf = wire_values host w vs in
    let count : nelm ≡ length vs + (nelm - length vs) = omega arith in
    rw
      (
        count,
        read_values-wire host w beyond vs buf [] [] (nelm - length vs) (sym (append-nil buf)) h
            size,
        read_values_end host w beyond buf (nelm - length vs) (length buf) (omega arith),
      )
      (append-nil vs)

read_values_last :
    (host : Endian) (bytes : List ℕ) (b x : ℕ) (beyond : List ℕ) (n : ℕ)
    → length bytes + 2 < 2 ^ 64
    → read_values host w16 2 (bytes ++ (b ∷ [])) (x ∷ beyond) (suc n) (length bytes)
      ≡ bytes2val host w16 (b ∷ x ∷ []) ∷ []
unfolding read_values
read_values_last host bytes b x beyond n size =
    let buf = bytes ++ (b ∷ []) in
    let long : length buf ≡ length bytes + 1 = omega (arith, length-append bytes (b ∷ [])) in
    let test : ltb (length bytes) (length buf) ≡ true = ground arith in
    let src : (length bytes + 2) % 2 ^ 64 ≡ length bytes + 2 = omega arith in
    let value : bytes2val host w16 (drop (length bytes) (buf ++ (x ∷ beyond)))
        ≡ bytes2val host w16 (b ∷ x ∷ []) =
      rw (append_assoc bytes (b ∷ []) (x ∷ beyond), drop-append_length bytes (b ∷ x ∷ beyond))
        (sym (bytes2val-take host w16 (b ∷ x ∷ beyond))) in
    rw
      (
        test,
        value,
        src,
        read_values_end host w16 (x ∷ beyond) buf n (length bytes + 2) (omega arith),
      )
      refl

-- A waveform of 2 byte values, with room for one value more than the whole ones in its block, reads past
-- the end of a block that has one byte too many: behind the whole values it has one more, of that
-- byte and of what memory holds behind the block. The block has fewer than 2 ^ 64 - 1 bytes.
pub read_values_over :
    (host : Endian) (vs : List ℕ) (b x : ℕ) (beyond : List ℕ) (nelm : ℕ)
    → All (λ v. v < modulus w16) vs
    → length vs < nelm
    → length (wire_values host w16 vs) + 2 < 2 ^ 64
    → read_values host w16 2 (wire_values host w16 vs ++ (b ∷ [])) (x ∷ beyond) nelm 0
      ≡ vs ++ (bytes2val host w16 (b ∷ x ∷ []) ∷ [])
read_values_over host vs b x beyond nelm h room size =
    let bytes = wire_values host w16 vs in
    let buf = bytes ++ (b ∷ []) in
    let n = nelm - length vs - 1 in
    let count : nelm ≡ length vs + suc n = omega arith in
    let long : length buf ≡ length bytes + 1 = omega (arith, length-append bytes (b ∷ [])) in
    let one : read_values host w16 2 buf (x ∷ beyond) (suc n) (length bytes)
        ≡ bytes2val host w16 (b ∷ x ∷ []) ∷ [] =
      read_values_last host bytes b x beyond n (omega arith) in
    rw
      (
        count,
        read_values-wire host w16 (x ∷ beyond) vs buf [] (b ∷ []) (suc n) refl h (omega arith),
        one,
      )
      refl
