-- ===== src/Dev/Text/Strings.antt =====
-- The text that ends up in a string VAL.
use pscdrv.Common.{
  ℕ, zero, suc, List, [], ◌∷◌, ◌++◌, length, take, drop, resize, overwrite, overwrite_at, ◌≡◌, refl,
  ap, ◌∙◌, ◌<◌, ◌≤◌, ◌-◌, arith, min, max, if◌then◌else◌, ltb, leb, Bool-cases, inl, inr,
  length-take, length-overwrite, ◌⊎◌,
}
use pscdrv.Dev.Text.{until_nul, strncpy, si_text, max_string_size, message_text, copied, overflow}

length-until_nul : (xs : List ℕ) → length (until_nul xs) ≤ length xs
length-until_nul [] = omega arith
length-until_nul (c ∷ cs) = ground (arith, length-until_nul cs)

-- Padding and what lies behind the closing 0 do not show.
until_nul-pad :
    (n : ℕ) (xs rest : List ℕ)
    → length xs ≤ n
    → until_nul (resize n 0 (until_nul xs) ++ (0 ∷ rest)) ≡ until_nul xs
until_nul-pad zero [] rest h = refl
until_nul-pad zero (c ∷ cs) rest h = absurd (omega arith)
until_nul-pad (suc n) [] rest h = refl
until_nul-pad (suc n) (c ∷ cs) rest h = ground (arith, until_nul-pad n cs rest)

overwrite-eq :
    (xs old : List ℕ) → length xs ≤ length old → overwrite xs old ≡ xs ++ drop (length xs) old
overwrite-eq [] old h = refl
overwrite-eq (x ∷ xs) [] h = absurd (omega arith)
overwrite-eq (x ∷ xs) (y ∷ old) h = ap (◌∷◌ x) (overwrite-eq xs old (omega arith))

take-min : (n : ℕ) (xs : List ℕ) → take (min n (length xs)) xs ≡ take n xs
take-min zero xs = let m : min 0 (length xs) ≡ 0 = omega arith in rw m refl
take-min (suc n) [] = let m : min (suc n) 0 ≡ 0 = omega arith in rw m refl
take-min (suc n) (x ∷ xs) =
    let m : min (suc n) (suc (length xs)) ≡ suc (min n (length xs)) = omega arith in
    rw (m, take-min n xs) refl

take-drop-min :
    (n k : ℕ) (xs : List ℕ)
    → k ≤ min n (length xs)
    → take (min n (length xs) - k) (drop k xs) ≡ drop k (take n xs)
take-drop-min n zero xs h =
    let m : min n (length xs) - 0 ≡ min n (length xs) = omega arith in rw m (take-min n xs)
take-drop-min n (suc k) [] h = absurd (omega arith)
take-drop-min zero (suc k) (x ∷ xs) h = absurd (omega arith)
take-drop-min (suc n) (suc k) (x ∷ xs) h =
    let m : min (suc n) (suc (length xs)) - suc k ≡ min n (length xs) - k = omega arith in
    rw m (take-drop-min n k xs (omega arith))

drop_all : (k : ℕ) (xs : List ℕ) → length xs ≤ k → drop k xs ≡ []
drop_all zero [] h = refl
drop_all zero (x ∷ xs) h = absurd (omega arith)
drop_all (suc k) [] h = refl
drop_all (suc k) (x ∷ xs) h = drop_all k xs (omega arith)

until_nul-cut : (n : ℕ) (xs : List ℕ) → until_nul (take n (until_nul xs)) ≡ until_nul (take n xs)
until_nul-cut zero xs = refl
until_nul-cut (suc n) [] = refl
until_nul-cut (suc n) (c ∷ cs) = ground (arith, until_nul-cut n cs)

-- What `strncpy` and the closing 0 leave over any old text that is long enough.
until_nul-strncpy :
    (n : ℕ) (src old : List ℕ)
    → n < length old
    → until_nul (overwrite (strncpy n src ++ (0 ∷ [])) old) ≡ until_nul (take n src)
until_nul-strncpy zero src [] h = absurd (omega arith)
until_nul-strncpy zero src (y ∷ old) h = refl
until_nul-strncpy (suc n) [] [] h = absurd (omega arith)
until_nul-strncpy (suc n) [] (y ∷ old) h = refl
until_nul-strncpy (suc n) (c ∷ cs) [] h = absurd (omega arith)
until_nul-strncpy (suc n) (c ∷ cs) (y ∷ old) h = ground (arith, until_nul-strncpy n cs old)

-- The string that a record reads into a VAL of 40 bytes is the text of its block from its offset, to the
-- first 0 byte or the block's 39th byte; it is empty where the offset lies beyond that. VAL keeps its
-- size, and an older text shows nowhere.
until_nul-si_text :
    (offset : ℕ) (bytes val : List ℕ)
    → length val ≡ max_string_size
    → (until_nul (si_text offset bytes val) ≡ until_nul (drop offset (take 39 bytes)))
      × (length (si_text offset bytes val) ≡ max_string_size)
unfolding si_text
until_nul-si_text offset bytes val size =
    let len = min 39 (length bytes) in
    let cut : (if leb 40 (length bytes) then 39 else length bytes) ≡ len = ground arith in
    rw cut (elim (Bool-cases (ltb len offset)) [
      | inl far ↦
          rw (far, drop_all offset (take 39 bytes) (ground (arith, length-take 39 bytes)))
            (until_nul-strncpy 0 [] val (omega arith), length-overwrite (0 ∷ []) val ∙ size)
      | inr near ↦ rw near (
        until_nul-strncpy (len - offset) (drop offset bytes) val (omega arith)
            ∙ ap until_nul (take-drop-min 39 offset bytes (ground arith)),
        length-overwrite _ val ∙ size,
      )
    ])

until_nul-closed :
    (message : List ℕ) (n : ℕ)
    → length message ≤ n
    → until_nul (take n (message ++ (0 ∷ []))) ≡ until_nul message
until_nul-closed [] zero h = refl
until_nul-closed [] (suc n) h = refl
until_nul-closed (c ∷ cs) zero h = absurd (omega arith)
until_nul-closed (c ∷ cs) (suc n) h = ground (arith, until_nul-closed cs n)

-- A status text of at most 40 characters is shown up to its 39th; a longer one is written past the
-- end of VAL, in as many bytes as it has more than 40.
message_text-copied :
    (message : List ℕ)
    → ((length message ≤ 40)
        × (message_text message
            ≡ copied (overwrite_at 39 (0 ∷ []) (resize 40 0 (until_nul message)))))
      ⊎ ((40 < length message) × (message_text message ≡ overflow (length message - 40)))
unfolding message_text
message_text-copied message = elim (Bool-cases (ltb 40 (length message))) [
  | inl long ↦ inr (ground arith, ground arith)
  | inr short ↦
      let m : max (length message) 40 ≡ 40 = ground arith in
      inl (ground arith, rw (m, until_nul-closed message 40 (ground arith)) refl)
]
