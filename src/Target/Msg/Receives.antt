-- ===== src/Target/Msg/Receives.antt =====
-- What targetApp/pscmsg.c reads from a connection, however the network cuts the bytes.
use mathlib.Core.List.{append_assoc}
use pscdrv.Common.{
  tests, ℕ, zero, suc, List, [], ◌∷◌, ◌++◌, length, take, drop, ◌≡◌, refl, ◌∙◌, ap, sym, ◌-◌, ◌<◌,
  ◌≤◌, min, arith, false, inl, inr, Bool-cases, ◌==◌, ltb, length-append, length-drop, length-take,
  take-drop, take-append_le, drop-append_le,
}
use pscdrv.Target.Socket.{Network, Sock, bytes, moves, recv_by}
use pscdrv.Target.Msg.{Ret, fine, after_recv, prepend, recv_loop, psc_recvall, skip_loop}

pub drop-length : (xs : List ℕ) → drop (length xs) xs ≡ []
drop-length [] = refl
drop-length (x ∷ xs) = drop-length xs

suc_eq_zero : (n : ℕ) → (suc n == 0) ≡ false
suc_eq_zero n = ground arith

-- No call fails, and the connection is not closed while bytes are to come.
abbrev pub IsFlowing : Network → Type 0
IsFlowing net = (n : ℕ) → (k : ℕ) × (net n ≡ moves (suc k))

-- The same from call `c` on.
abbrev pub FlowsFrom : ℕ → Network → Type 0
FlowsFrom c net = (n : ℕ) → c ≤ n → (k : ℕ) × (net n ≡ moves (suc k))

abbrev pub reading : List ℕ → List ℕ → ℕ → Sock
reading input output calls = record { input = input; output = output; calls = calls }

-- A call on a connection with the bytes `xs` and more takes some of `xs`.
recv_by-flowing :
    (k : ℕ) (x : ℕ) (xs rest out : List ℕ) (c : ℕ)
    → let n = suc (min k (length xs)) in
      recv_by (moves (suc k)) (length (x ∷ xs)) (reading (x ∷ xs ++ rest) out c)
      ≡ bytes (take n (x ∷ xs)) (reading (drop n (x ∷ xs) ++ rest) out (suc c))
recv_by-flowing k x xs rest out c =
    let m : min (min (suc k) (suc (length xs))) (suc (length (xs ++ rest)))
        ≡ suc (min k (length xs)) =
      omega (arith, length-append xs rest) in
    rw
      (
        m,
        take-append_le (min k (length xs)) xs rest (omega arith),
        drop-append_le (min k (length xs)) xs rest (omega arith),
      )
      refl

-- A round that has read some of `xs` goes on with the others.
after_recv-bytes :
    (loop : ℕ → Sock → Ret × List ℕ × Sock) (n x : ℕ) (xs : List ℕ) (s : Sock)
    → n ≤ length xs
    → after_recv loop (length (x ∷ xs)) (bytes (take (suc n) (x ∷ xs)) s)
      ≡ prepend (x ∷ take n xs) (loop (length (drop n xs)) s)
after_recv-bytes loop n x xs s h =
    let e : length (x ∷ xs) - length (x ∷ take n xs) ≡ length (drop n xs) =
      omega (arith, length-take n xs, length-drop n xs) in
    rw (suc_eq_zero (length (take n xs)), e) refl

recv_loop-flowing :
    (net : Network) (fuel : ℕ) (xs rest out : List ℕ) (c : ℕ)
    → FlowsFrom c net
    → length xs ≤ fuel
    → (c' : ℕ) × (recv_loop net fuel (length xs) (reading (xs ++ rest) out c)
        ≡ (fine, xs, reading rest out c'))
unfolding recv_loop
recv_loop-flowing net zero [] rest out c flow h = (c, refl)
recv_loop-flowing net (suc fuel) [] rest out c flow h = (c, refl)
recv_loop-flowing net zero (x ∷ xs) rest out c flow h = absurd (omega arith)
recv_loop-flowing net (suc fuel) (x ∷ xs) rest out c flow h =
    let (k, e) = flow c (omega arith) in
    let n = min k (length xs) in
    let (c', r) =
      recv_loop-flowing net fuel (drop n xs) rest out (suc c) (λ i le. flow i (omega arith))
        (omega (arith, length-drop n xs)) in
    (
      c',
      rw (suc_eq_zero (length xs), e)
          (ap (after_recv (recv_loop net fuel) (length (x ∷ xs)))
              (recv_by-flowing k x xs rest out c)
            ∙ after_recv-bytes (recv_loop net fuel) n x xs (reading (drop n xs ++ rest) out (suc c))
                (omega arith)
            ∙ ap (prepend (x ∷ take n xs)) r
            ∙ ap (λ ys. (fine, x ∷ ys, reading rest out c')) (take-drop n xs)),
    )

pub psc_recvall-from :
    (net : Network) (n : ℕ) (xs rest out : List ℕ) (c : ℕ)
    → FlowsFrom c net
    → n ≤ length xs
    → (c' : ℕ) × (psc_recvall net n (reading (xs ++ rest) out c)
        ≡ (fine, take n xs, reading (drop n xs ++ rest) out c'))
unfolding psc_recvall
psc_recvall-from net n xs rest out c flow h =
    let len : length (take n xs) ≡ n = omega (arith, length-take n xs) in
    let (c', r) =
      recv_loop-flowing net n (take n xs) (drop n xs ++ rest) out c flow (omega arith) in
    let whole : take n xs ++ (drop n xs ++ rest) ≡ xs ++ rest =
      sym (append_assoc (take n xs) (drop n xs) rest) ∙ ap (λ ys. ys ++ rest) (take-drop n xs) in
    (
      c',
      ap (λ i. recv_loop net n i (reading (xs ++ rest) out c)) (sym len)
          ∙ ap (λ ys. recv_loop net n (length (take n xs)) (reading ys out c)) (sym whole)
          ∙ r,
    )

pub psc_recvall-flowing :
    (net : Network) (n : ℕ) (xs rest out : List ℕ) (c : ℕ)
    → IsFlowing net
    → n ≤ length xs
    → (c' : ℕ) × (psc_recvall net n (reading (xs ++ rest) out c)
        ≡ (fine, take n xs, reading (drop n xs ++ rest) out c'))
psc_recvall-flowing net n xs rest out c flow = psc_recvall-from net n xs rest out c (λ i _. flow i)

fits : (n : ℕ) → ltb 128 n ≡ false → n ≤ 128
fits n h = ground arith

-- What one chunk takes stays inside the buffer.
take_fits : (n : ℕ) (xs : List ℕ) → n ≤ 128 → ltb 128 (length (take n xs)) ≡ false
take_fits n xs h = ground (arith, length-take n xs)

pub skip_loop-flowing :
    (net : Network) (fuel : ℕ) (xs rest out : List ℕ) (c : ℕ)
    → IsFlowing net
    → length xs < fuel
    → (c' : ℕ) × (skip_loop net fuel (length xs) (reading (xs ++ rest) out c)
        ≡ (fine, reading rest out c'))
unfolding skip_loop
skip_loop-flowing net zero xs rest out c flow h = absurd (omega arith)
skip_loop-flowing net (suc fuel) xs rest out c flow h = elim (Bool-cases (ltb 128 (length xs))) [
  | inl long ↦
      let (c', r) = psc_recvall-flowing net 128 xs rest out c flow (omega (tests, long)) in
      let (c'', r') =
        skip_loop-flowing net fuel (drop 128 xs) rest out c' flow
          (omega (tests, long, length-drop 128 xs)) in
      let within = take_fits 128 xs (omega arith) in
      (
        c'',
        rw (long, r, within)
            (ap (λ i. skip_loop net fuel i (reading (drop 128 xs ++ rest) out c'))
                (sym (length-drop 128 xs))
              ∙ r'),
      )
  | inr short ↦
      let (c', r) = psc_recvall-flowing net (length xs) xs rest out c flow (omega arith) in
      let within = take_fits (length xs) xs (fits (length xs) short) in
      (c', rw (short, r, within) (ap (λ ys. (fine, reading (ys ++ rest) out c')) (drop-length xs)))
]
