-- ===== src/Recv/Segments.antt =====
-- TCP delivers a stream in pieces: how it is cut makes no difference to the decoder.
use pscdrv.Common.{
  ℕ, suc, List, ◌++◌, length, ◌≡◌, refl, ◌≤◌, ◌+◌, arith, length-append, take-append_le,
  drop-append_le, Option, inl, inr, Bool-cases, ltb, true, false, ◌≢◌,
}
use pscdrv.Wire.{Endian}
use pscdrv.Recv.{
  Rx, Outcome, more, waiting, framing, failed, stuck, found_header, take_body, header_step, next,
  step, progress, receive,
}
use pscdrv.Recv.Rounds.{IsReady, step-IsReady, step-waiting, receive-step, receive_induction}

-- More bytes arrive in the receive buffer.
abbrev pub feed : List ℕ → Rx → Rx
feed ys r = record r { input = r.input ++ ys }

abbrev pub feed_outcome : List ℕ → Outcome → Outcome
feed_outcome ys (more r) = more (feed ys r)
feed_outcome ys (waiting r) = waiting (feed ys r)
feed_outcome ys (framing r) = framing (feed ys r)
feed_outcome ys failed = failed
feed_outcome ys stuck = stuck

take_body-feed :
    (ys : List ℕ) (r : Rx)
    → r.bodylen ≤ length r.input
    → take_body (feed ys r) ≡ feed ys (take_body r)
unfolding take_body
take_body-feed ys r enough =
    ground (
      arith,
      take-append_le r.bodylen r.input ys enough,
      drop-append_le r.bodylen r.input ys enough,
    )

progress-feed :
    (ys : List ℕ) (n : ℕ) (o : Outcome)
    → progress (n + length ys) (feed_outcome ys o) ≡ feed_outcome ys (progress n o)
progress-feed ys n (more r) = ground (arith, length-append r.input ys)
progress-feed ys n (waiting r) = refl
progress-feed ys n (framing r) = refl
progress-feed ys n failed = refl
progress-feed ys n stuck = refl

module _ (host : Endian) (clock : ℕ → Option ℕ) where
  header_step-feed :
      (ys : List ℕ) (r : Rx)
      → 8 ≤ length r.input
      → header_step host clock (feed ys r) ≡ feed_outcome ys (header_step host clock r)
  unfolding header_step found_header
  header_step-feed ys r enough =
      rw (take-append_le 8 r.input ys enough, drop-append_le 8 r.input ys enough) (ground arith)

  step-feed :
      (ys : List ℕ) (r : Rx)
      → IsReady r
      → r.expect ≤ length r.input
      → step host clock (feed ys r) ≡ feed_outcome ys (step host clock r)
  unfolding step
  step-feed ys r ready enough = ground (
    arith,
    length-append r.input ys,
    progress-feed ys (length r.input) (more (take_body r)),
    progress-feed ys (length r.input) (header_step host clock r),
    take_body-feed ys r,
    header_step-feed ys r,
  )

  -- After the first piece: the loop goes on where it waited. After wrong markers the bytes stay.
  abbrev pub resume : List ℕ → Outcome → Outcome
  resume ys (waiting r) = receive host clock (feed ys r)
  resume ys (more r) = more (feed ys r)
  resume ys (framing r) = framing (feed ys r)
  resume ys failed = failed
  resume ys stuck = stuck

  next-feed :
      (ys : List ℕ) (r : Rx) (o : Outcome)
      → ((r' : Rx)
          → o ≡ more r'
          → receive host clock (feed ys r') ≡ resume ys (receive host clock r'))
      → ((s : Rx) → o ≡ waiting s → ⊥)
      → next (receive host clock) (feed_outcome ys o) ≡ resume ys (next (receive host clock) o)
  next-feed ys r (more r') h w = h r' refl
  next-feed ys r (waiting s) h w = absurd (w s refl)
  next-feed ys r (framing s) h w = refl
  next-feed ys r failed h w = refl
  next-feed ys r stuck h w = refl

  step-short : (r : Rx) → ltb (length r.input) r.expect ≡ true → step host clock r ≡ waiting r
  unfolding step
  step-short r short = rw short

  step-long :
      (r : Rx) → ltb (length r.input) r.expect ≡ false → (s : Rx) → step host clock r ≢ waiting s
  step-long r long s e = ground (arith, step-waiting host clock r s e)

  receive-step_feed :
      (ys : List ℕ) (r : Rx)
      → IsReady r
      → ((r' : Rx)
          → step host clock r ≡ more r'
          → receive host clock (feed ys r') ≡ resume ys (receive host clock r'))
      → receive host clock (feed ys r) ≡ resume ys (next (receive host clock) (step host clock r))
  receive-step_feed ys r ready ih = elim (Bool-cases (ltb (length r.input) r.expect)) [
    | inl short ↦ rw (step-short r short)
    | inr long ↦
        rw (receive-step host clock (feed ys r), step-feed ys r ready (ground arith))
          (next-feed ys r (step host clock r) ih (step-long r long))
  ]

-- Bytes that arrive in two pieces, each followed by a run of the decoder, leave the same blocks,
-- counters, requests and decoder as the whole in one piece: from any state between messages or
-- between a header and its body, whether the decoder then waits, has met wrong markers or failed.
pub receive-feed :
    (host : Endian) (clock : ℕ → Option ℕ) (ys : List ℕ) (r : Rx)
    → IsReady r
    → receive host clock (feed ys r) ≡ resume host clock ys (receive host clock r)
receive-feed host clock ys r ready =
    receive_induction host clock
      (λ s o. IsReady s → receive host clock (feed ys s) ≡ resume host clock ys o)
      (λ s ih h.
        receive-step_feed host clock ys s h (λ r' e. ih r' e (step-IsReady host clock s r' h e)))
      (suc (length r.input)) r (omega arith) ready
