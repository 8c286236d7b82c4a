-- ===== src/Dev/Text.antt =====
-- Strings from and to a whole block: coreApp/src/devPSCString.cpp, and the status text of
-- coreApp/src/devPSCCtrl.cpp (`read_si_message`).
pub mod Strings
use pscdrv.Common.{
  ℕ, List, [], ◌∷◌, ◌++◌, length, take, drop, resize, overwrite, overwrite_at, insert, lookup, Bool,
  true, false, not, Option, none, some, ltb, leb, ◌==◌, if◌then◌else◌, ◌+◌, ◌-◌, max,
}
use pscdrv.Block.{Block}
use pscdrv.Outcome.{Result, ok, threw, aborted, faulted, read_alarm, write_alarm, ◌>>=◌}
use pscdrv.Psc.State.{Env, Psc}
use pscdrv.Psc.Send.{queue_block}
use pscdrv.Dev.Link.{
  Priv, block_of, set_block, success, no_private, Rec, Handled, done, null, stamp, caught,
  set_alarm,
}

-- MAX_STRING_SIZE
abbrev pub max_string_size : ℕ
max_string_size = 40

-- The text of a byte array: what stands before the first 0.
abbrev pub until_nul : List ℕ → List ℕ
until_nul [] = []
until_nul (c ∷ cs) = if c == 0 then [] else c ∷ until_nul cs

-- The `n` bytes that `strncpy` stores: the text, filled up with zeros.
abbrev pub strncpy : ℕ → List ℕ → List ℕ
strncpy n src = resize n 0 (until_nul (take n src))

-- The VAL after `read_si`, from the bytes of the block.
unfoldable pub si_text : ℕ → List ℕ → List ℕ → List ℕ
si_text offset bytes val =
    let size = length bytes in
    let len = if leb max_string_size size then max_string_size - 1 else size in
    if ltb len offset
    then overwrite (0 ∷ []) val
    else overwrite (strncpy (len - offset) (drop offset bytes) ++ (0 ∷ [])) val

-- `priv->block->data` is set after the message is queued. `strnlen` counts the text.
abbrev pub keep_text : Priv → List ℕ → Psc → Result Psc
keep_text v text q = elim (lookup v.bid q.send_blocks) [
  | none ↦ faulted
  | some b ↦ ok (record q {
    send_blocks =
        insert v.bid
          (record b { data_bytes = overwrite text (resize (length text) 0 b.data_bytes) })
          q.send_blocks;
  })
]

module _ {Real : Type 0} (env : Env) where
  unfoldable pub read_si : Option Priv → Psc → Rec Real → Handled (Rec Real)
  unfolding si_text stamp
  read_si none p r = done no_private r p
  read_si (some v) p r =
      if not p.connected then done success (set_alarm read_alarm r) p else (elim (block_of v p) [
        | none ↦ null
        | some b ↦
            stamp env.host success v p (record r { text = si_text v.offset b.data_bytes r.text })
      ])

  unfoldable pub write_so : Bool → Option Priv → Psc → Rec Real → Handled (Rec Real)
  unfolding queue_block
  write_so fits none p r = done no_private r p
  write_so fits (some v) p r =
      let len = length (until_nul (take max_string_size r.text)) in
      let text = take len r.text in
      if not p.connected
      then done success (set_alarm write_alarm r) p
      else caught (queue_block env fits v.bid text p >>= keep_text v text) r

-- `read_si_message`, on the characters of the message: the new VAL, or how many bytes `strncpy`
-- stores past its end.
pub data Copied : Type 0 where
  copied : List ℕ → Copied
  overflow : ℕ → Copied

unfoldable pub message_text : List ℕ → Copied
message_text message =
    let len = max (length message) max_string_size in
    if ltb max_string_size len
    then overflow (len - max_string_size)
    else copied (overwrite_at (max_string_size - 1) (0 ∷ []) (strncpy len (message ++ (0 ∷ []))))
