-- ===== src/Captures/Dump.antt =====
-- `subGenStreamProc` of pscApp/src/aSubGen.cpp, which `subEncStreamProc` of pscApp/src/aSubEnc.cpp
-- repeats: bytes are appended to a file as text. Text is a list of characters as numbers.
pub mod Parse
use pscdrv.Common.{
  ℕ, zero, suc, List, [], ◌∷◌, ◌++◌, get_or, Bool, ltb, ◌==◌, if◌then◌else◌, ◌+◌, ◌-◌, ◌*◌, ◌/◌,
  ◌%◌, ◌^◌,
}

-- How the subroutine ends: with status 0 and the text of the file, with status -1, or by use of a null
-- pointer, since the result of `fopen` is not looked at.
pub data Saved : Type 0 where
  saved : List ℕ → Saved
  no_directory crashed : Saved

-- A digit of `%x`.
unfoldable pub hex_digit : ℕ → ℕ
hex_digit n = if ltb n 10 then b'0' + n else b'a' + n - 10

-- The text of byte `i`, with a new line behind every sixteenth.
unfoldable pub byte_text : ℕ → ℕ → List ℕ
unfolding hex_digit
byte_text i b =
    let digits = hex_digit (b / 16) ∷ hex_digit (b % 16) ∷ b' ' ∷ [] in
    if (i + 1) % 16 == 0 then digits ++ (10 ∷ []) else digits

-- The loop from byte `i` on, for `n` bytes; `beyond i` is what memory holds at place `i` of A where it
-- has no such byte.
unfoldable pub stream_text : (ℕ → ℕ) → List ℕ → ℕ → ℕ → List ℕ
unfolding byte_text
stream_text beyond a i zero = []
stream_text beyond a i (suc n) =
    byte_text i (get_or a i (beyond i)) ++ stream_text beyond a (suc i) n

-- The subroutine, for `n` bytes: whether the directory is there, whether the file opens, and its text.
unfoldable pub save_stream : ℕ → Bool → Bool → (ℕ → ℕ) → List ℕ → List ℕ → Saved
unfolding stream_text
save_stream n entered opened beyond a file =
    if entered
    then (if opened then saved (file ++ stream_text beyond a 0 n) else crashed)
    else no_directory

-- `wfLength` bytes.
unfoldable pub stream_proc : Bool → Bool → (ℕ → ℕ) → List ℕ → List ℕ → Saved
unfolding save_stream
stream_proc entered opened beyond a file = save_stream 16384 entered opened beyond a file
