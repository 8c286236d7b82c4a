-- ===== src/Dev/Ctrl/Handlers.antt =====
-- The longout record that sends a block: what it leaves in the send queue.
use pscdrv.Common.{
  ℕ, List, [], ◌∷◌, ◌++◌, length, Bool, true, false, ◌||◌, some, ◌≡◌, refl, sym, subst, ◌⊎◌, inl,
  inr, ◌≤◌, ◌<◌, ◌^◌, arith, lookup, Option-cases, Bool-cases, leb, ltb,
}
use pscdrv.Block.{Block}
use pscdrv.Outcome.{Result, ok, threw, aborted, faulted, write_alarm}
use pscdrv.Recv.Frames.{Message}
use pscdrv.Psc.State.{Env, Psc}
use pscdrv.Psc.Send.{send, queue_block}
use pscdrv.Psc.Queue.{Queued, has_id, AfterQueue, queue_block-AfterQueue}
use pscdrv.Dev.Link.{Rec, Handled, done, null, failed, caught, set_alarm}
use pscdrv.Dev.Ctrl.{write_lo_send_block}

-- The block of the message ID, if it exists, and what waits after the record has processed.
abbrev pub AfterSend : List Message → ℕ → Psc → Psc → Type 0
AfterSend ms id p q =
    Queued ms q
    ⊎ ((b : Block) × (lookup id p.send_blocks ≡ some b)
        × (p.connected ≡ true)
        × (has_id id ms ≡ false)
        × Queued (ms ++ (record { id = id; body = b.data_bytes } ∷ [])) q)

abbrev pub AfterLo : {Real : Type 0} → List Message → Psc → Rec Real → Handled (Rec Real) → Type 0
AfterLo ms p r (done code r' q) =
    ((0xffff < r.val) × (q ≡ p) × (r' ≡ set_alarm write_alarm r))
    ⊎ ((r.val ≤ 0xffff) × AfterSend ms r.val p q)
AfterLo ms p r null = ⊥
AfterLo ms p r failed = ⊥

abbrev SendResult : List Message → ℕ → Psc → Result Psc → Type 0
SendResult ms id p (ok q) = AfterSend ms id p q
SendResult ms id p (threw e q) = AfterSend ms id p q
SendResult ms id p aborted = ⊥
SendResult ms id p faulted = ⊥

send_result :
    (ms : List Message) (id : ℕ) (p : Psc) (b : Block) (x : Result Psc)
    → lookup id p.send_blocks ≡ some b
    → AfterQueue ms (record { id = id; body = b.data_bytes }) p x
    → SendResult ms id p x
send_result ms id p b (ok q) e (inl (c, free, v)) = inr (b, e, c, free, v)
send_result ms id p b (ok q) e (inr (c, v)) = inl v
send_result ms id p b (threw x q) e h = inl h
send_result ms id p b aborted e h = h
send_result ms id p b faulted e h = h

send-eq :
    (env : Env) (fits : Bool) (id : ℕ) (p : Psc)
    → (send env fits id p ≡ ok p)
      ⊎ ((b : Block) × (lookup id p.send_blocks ≡ some b)
          × (send env fits id p ≡ queue_block env fits id b.data_bytes p))
unfolding send
send-eq env fits id p = elim (Option-cases (lookup id p.send_blocks)) [
  | inl n ↦ inl (ground arith)
  | inr (b, e) ↦ inr (b, e, ground arith)
]

send-AfterSend :
    (env : Env) (fits : Bool) (id : ℕ) (ms : List Message) (p : Psc)
    → id < 2 ^ 16
    → ((b : Block) → lookup id p.send_blocks ≡ some b → length b.data_bytes < 2 ^ 32)
    → Queued ms p
    → SendResult ms id p (send env fits id p)
send-AfterSend env fits id ms p h size v = elim (send-eq env fits id p) [
  | inl e ↦ subst (SendResult ms id p) (sym e) (inl v)
  | inr (b, e, same) ↦ subst (SendResult ms id p) (sym same) (
      send_result ms id p b _ e
        (queue_block-AfterQueue env fits id b.data_bytes ms p _ h (size b e) (ground arith) v refl))
]

caught-AfterLo :
    {Real : Type 0} (ms : List Message) (p : Psc) (r : Rec Real) (x : Result Psc)
    → r.val ≤ 0xffff
    → SendResult ms r.val p x
    → AfterLo ms p r (caught x r)
caught-AfterLo ms p r (ok q) h s = inr (h, s)
caught-AfterLo ms p r (threw e q) h s = inr (h, s)
caught-AfterLo ms p r aborted h s = s
caught-AfterLo ms p r faulted h s = s

-- A longout record that sends a block, where the block's bytes are fewer than 2 ^ 32: a value that is
-- no 16 bit number sets an alarm and changes nothing in the PSC; any other one keeps the send queue
-- a sequence of whole messages, and adds at most one, the bytes of the block of that ID, and only to
-- a connected PSC where none of that ID waited. No null pointer is used and no assertion fails.
pub write_lo_send_block-AfterLo :
    {Real : Type 0} (env : Env) (fits : Bool) (ms : List Message) (p : Psc) (r : Rec Real)
    → ((b : Block) → lookup r.val p.send_blocks ≡ some b → length b.data_bytes < 2 ^ 32)
    → Queued ms p
    → AfterLo ms p r (write_lo_send_block env fits true p r)
unfolding write_lo_send_block
write_lo_send_block-AfterLo env fits ms p r size v =
    elim (Bool-cases (leb (2 ^ 31) r.val || ltb 0xffff r.val)) [
      | inl wide ↦ rw wide (inl (ground arith, refl, refl))
      | inr small ↦ rw small (
          caught-AfterLo ms p r _ (ground arith)
            (send-AfterSend env fits r.val ms p (ground arith) size v))
    ]
