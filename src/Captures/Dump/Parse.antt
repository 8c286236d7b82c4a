-- ===== src/Captures/Dump/Parse.antt =====
-- The text of a stream can be read back.
use pscdrv.Common.{
  ℕ, zero, suc, List, [], ◌∷◌, ◌++◌, length, get_or, drop, take, true, false, ltb, ◌==◌,
  if◌then◌else◌, ◌+◌, ◌-◌, ◌*◌, ◌/◌, ◌%◌, ◌≡◌, refl, ap, ◌∙◌, ◌<◌, ◌≤◌, arith, Bool-cases, inl, inr,
  All, drop-get_or,
}
use pscdrv.Captures.Dump.{saved, hex_digit, byte_text, stream_text, save_stream}

-- The value of a hexadecimal digit.
abbrev pub digit_value : ℕ → ℕ
digit_value c = if ltb c b'a' then c - b'0' else c - b'a' + 10

-- Text read as bytes of two digits and a blank each; new lines are passed over.
abbrev pub parse : List ℕ → List ℕ
parse (x ∷ y ∷ z ∷ cs) =
    let skipped = parse (y ∷ z ∷ cs) in
    let more = parse cs in if x == 10 then skipped else (16 * digit_value x + digit_value y) ∷ more
parse _ = []

parse-newline : (cs : List ℕ) → parse (10 ∷ cs) ≡ parse cs
parse-newline [] = refl
parse-newline (c ∷ []) = refl
parse-newline (c ∷ d ∷ cs) = refl

digit_value-hex_digit : (n : ℕ) → n < 16 → digit_value (hex_digit n) ≡ n
unfolding hex_digit
digit_value-hex_digit n h = ground arith

hex_digit_lower : (n : ℕ) → (hex_digit n == 10) ≡ false
unfolding hex_digit
hex_digit_lower n = ground arith

-- The digits of one byte.
parse-digits :
    (b : ℕ) (cs : List ℕ)
    → b < 256
    → parse (hex_digit (b / 16) ∷ hex_digit (b % 16) ∷ b' ' ∷ cs) ≡ b ∷ parse cs
parse-digits b cs h =
    let high = digit_value-hex_digit (b / 16) (omega arith) in
    let low = digit_value-hex_digit (b % 16) (omega arith) in
    let whole : 16 * (b / 16) + b % 16 ≡ b = omega arith in
    rw (hex_digit_lower (b / 16), high, low, whole) refl

parse-byte_text : (i b : ℕ) (cs : List ℕ) → b < 256 → parse (byte_text i b ++ cs) ≡ b ∷ parse cs
unfolding byte_text
parse-byte_text i b cs h = elim (Bool-cases ((i + 1) % 16 == 0)) [
  | inl last ↦ rw last (parse-digits b (10 ∷ cs) h ∙ ap (◌∷◌ b) (parse-newline cs))
  | inr inner ↦ rw inner (parse-digits b cs h)
]

-- Each element of the array is a byte.
abbrev pub IsBytes : List ℕ → Type 0
IsBytes a = All (λ b. b < 256) a

IsBytes-get_or : (a : List ℕ) (i d : ℕ) → IsBytes a → i < length a → get_or a i d < 256
IsBytes-get_or [] i d all h = absurd (omega arith)
IsBytes-get_or (b ∷ a) zero d (v, all) h = v
IsBytes-get_or (b ∷ a) (suc i) d (v, all) h = IsBytes-get_or a i d all (omega arith)

parse-stream_text :
    (beyond : ℕ → ℕ) (a : List ℕ) (i n : ℕ)
    → IsBytes a
    → i + n ≤ length a
    → parse (stream_text beyond a i n) ≡ take n (drop i a)
unfolding stream_text
parse-stream_text beyond a i zero all h = refl
parse-stream_text beyond a i (suc n) all h = rw (drop-get_or i a (beyond i) (omega arith)) (
    parse-byte_text i (get_or a i (beyond i)) (stream_text beyond a (suc i) n)
      (IsBytes-get_or a i (beyond i) all (omega arith))
    ∙ ap (◌∷◌ (get_or a i (beyond i))) (parse-stream_text beyond a (suc i) n all (omega arith)))

-- Where the directory is there and the file opens, what is appended to the file, read as bytes of two
-- hexadecimal digits each, is the first bytes of the array, which has at least as many.
parse-save_stream :
    (n : ℕ) (beyond : ℕ → ℕ) (a file : List ℕ)
    → IsBytes a
    → n ≤ length a
    → (text : List ℕ) × (save_stream n true true beyond a file ≡ saved (file ++ text))
      × (parse text ≡ take n a)
unfolding save_stream
parse-save_stream n beyond a file all h =
    (stream_text beyond a 0 n, refl, parse-stream_text beyond a 0 n all (omega arith))
