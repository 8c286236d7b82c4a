-- ===== src/Recv/Rounds.antt =====
-- The loop of `recvdata`: what a state of the decoder may be, and that every round takes a byte.
use pscdrv.Common.{
  ℕ, ◌≤◌, get_or, get_or-take, drop, zero, suc, length, true, false, Option, ◌≡◌, refl, ◌⊎◌, ◌≢◌,
  ◌<◌, arith, length-drop,
}
use pscdrv.Wire.{Endian}
use pscdrv.Recv.{
  Rx, Outcome, more, waiting, framing, failed, stuck, header_size, found_header, take_body,
  header_step, next, step, rounds, receive,
}

-- Between headers the decoder wants a header; after one it wants the body.
abbrev pub IsReady : Rx → Type 0
IsReady r =
    ((r.have_head ≡ false) × (r.expect ≡ header_size))
    ⊎ ((r.have_head ≡ true) × (r.expect ≡ r.bodylen))

module _ (host : Endian) (clock : ℕ → Option ℕ) where
  pub step-IsReady : (r r' : Rx) → IsReady r → step host clock r ≡ more r' → IsReady r'
  unfolding step header_step take_body found_header
  step-IsReady r r' h e = ground arith

  pub step-shrinks : (r r' : Rx) → step host clock r ≡ more r' → length r'.input < length r.input
  unfolding step
  step-shrinks r r' e = ground arith

  next-cong :
      (o : Outcome) (f g : Rx → Outcome)
      → ((r' : Rx) → o ≡ more r' → f r' ≡ g r')
      → next f o ≡ next g o
  next-cong (more r) f g h = h r refl
  next-cong (waiting r) f g h = refl
  next-cong (framing r) f g h = refl
  next-cong failed f g h = refl
  next-cong stuck f g h = refl

  -- No fuel above the length of the buffer runs out, and more of it changes nothing.
  pub rounds-fuel :
      (f g : ℕ) (r : Rx)
      → length r.input < f
      → length r.input < g
      → rounds host clock f r ≡ rounds host clock g r
  unfolding rounds
  rounds-fuel zero g r hf hg = absurd (omega arith)
  rounds-fuel (suc f) zero r hf hg = absurd (omega arith)
  rounds-fuel (suc f) (suc g) r hf hg = next-cong (step host clock r) _ _ λ r' e.
      rounds-fuel f g r' (omega (arith, step-shrinks r r' e)) (omega (arith, step-shrinks r r' e))

  -- One round of the loop, with the fuel gone.
  pub receive-step : (r : Rx) → receive host clock r ≡ next (receive host clock) (step host clock r)
  unfolding receive
  receive-step r = next-cong (step host clock r) _ _ λ r' e.
      rounds-fuel (length r.input) (suc (length r'.input)) r' (step-shrinks r r' e) (omega arith)

  -- Induction over the rounds of the loop.
  pub receive_induction {ℓ} :
      (P : Rx → Outcome → Type ℓ)
      → ((r : Rx)
          → ((r' : Rx) → step host clock r ≡ more r' → P r' (receive host clock r'))
          → P r (next (receive host clock) (step host clock r)))
      → (n : ℕ) (r : Rx) → length r.input < n
      → P r (receive host clock r)
  receive_induction P h zero r l = absurd (omega arith)
  receive_induction P h (suc n) r l =
      rw (receive-step r)
        (h r λ r' e. receive_induction P h n r' (omega (arith, step-shrinks r r' e)))

  -- The states that the loop comes through from one state.
  pub data Runs : Rx → Rx → Type 0 where
    here : {r : Rx} → Runs r r
    after : {r r' s : Rx} → step host clock r ≡ more r' → Runs r' s → Runs r s

  -- From `q` a whole header is taken out of the buffer, and its markers are wrong.
  abbrev pub Corrupt : Rx → Rx → Type 0
  Corrupt q s =
      (q.have_head ≡ false)
      × (header_size ≤ length q.input)
      × ((get_or q.input 0 0 ≢ b'P') ⊎ (get_or q.input 1 0 ≢ b'S'))
      × (s ≡ record q { input = drop header_size q.input })

  -- Where the loop ends: it waits for more bytes than there are, it met wrong markers in place of a
  -- header, or, before that, it came to a body of length 0.
  abbrev pub EndsWell : Rx → Outcome → Type 0
  EndsWell r (waiting s) = Runs r s × IsReady s × (length s.input < s.expect)
  EndsWell r (framing s) = (q : Rx) × Runs r q × Corrupt q s
  EndsWell r failed = (s : Rx) × Runs r s × (s.have_head ≡ true) × (s.bodylen ≡ 0)
  EndsWell r (more s) = ⊥
  EndsWell r stuck = ⊥

  EndsWell-more :
      (r r' : Rx) (o : Outcome) → step host clock r ≡ more r' → EndsWell r' o → EndsWell r o
  EndsWell-more r r' (more s) e h = h
  EndsWell-more r r' (waiting s) e h = (after e h.0, h.1, h.2)
  EndsWell-more r r' (framing s) e h = (h.0, after e h.1, h.2)
  EndsWell-more r r' failed e h = (h.0, after e h.1, h.2, h.3)
  EndsWell-more r r' stuck e h = h

  pub step-waiting :
      (r s : Rx) → step host clock r ≡ waiting s → (s ≡ r) × (length r.input < r.expect)
  unfolding step header_step
  step-waiting r s e = ground arith

  step-framing : (r s : Rx) → IsReady r → step host clock r ≡ framing s → Corrupt r s
  unfolding step header_step
  step-framing r s h e = (
    ground arith,
    ground arith,
    ground (arith, get_or-take 0 8 r.input 0, get_or-take 1 8 r.input 0),
    ground arith,
  )

  step-failed :
      (r : Rx) → IsReady r → step host clock r ≡ failed → (r.have_head ≡ true) × (r.bodylen ≡ 0)
  unfolding step header_step take_body found_header
  step-failed r h e = ground (arith, length-drop r.bodylen r.input, length-drop 8 r.input)

  step-ne-stuck : (r : Rx) → step host clock r ≢ stuck
  unfolding step header_step
  step-ne-stuck r e = ground arith

  step-EndsWell :
      (r : Rx) (o : Outcome)
      → IsReady r
      → step host clock r ≡ o
      → ((r' : Rx) → o ≡ more r' → IsReady r' → EndsWell r' (receive host clock r'))
      → EndsWell r (next (receive host clock) o)
  step-EndsWell r (more r') h e ih = EndsWell-more r r' _ e (ih r' refl (step-IsReady r r' h e))
  step-EndsWell r (waiting s) h e ih =
      let (same, short) = step-waiting r s e in rw same (here, h, short)
  step-EndsWell r (framing s) h e ih = (r, here, step-framing r s h e)
  step-EndsWell r failed h e ih =
      let (head, zero_length) = step-failed r h e in (r, here, head, zero_length)
  step-EndsWell r stuck h e ih = step-ne-stuck r e

-- From a state between messages or between a header and its body the loop ends, and in one of three
-- ways, after some rounds: it waits, in such a state again and with fewer bytes than it expects; it
-- has taken a whole header out of the buffer whose markers are wrong; or an assertion fails, and then a
-- header has declared a body of 0 bytes.
pub receive-EndsWell :
    (host : Endian) (clock : ℕ → Option ℕ) (r : Rx)
    → IsReady r
    → EndsWell host clock r (receive host clock r)
receive-EndsWell host clock r h =
    receive_induction host clock (λ s o. IsReady s → EndsWell host clock s o)
      (λ s ih ready. step-EndsWell host clock s (step host clock s) ready refl ih)
      (suc (length r.input)) r (omega arith) h
