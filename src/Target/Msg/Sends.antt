-- ===== src/Target/Msg/Sends.antt =====
-- What targetApp/pscmsg.c puts on the wire, however the network cuts it.
use mathlib.Core.List.{append_assoc, append-nil}
use pscdrv.Common.{
  ℕ, zero, suc, List, [], ◌∷◌, ◌++◌, length, take, drop, ◌≡◌, refl, ◌∙◌, ap, sym, subst, ◌+◌, ◌<◌,
  ◌≤◌, ◌^◌, ◌%◌, min, arith, false, inl, inr, Bool-cases, ◌==◌, length-append, length-drop,
  take-drop, take-take-drop, take-append_le, take-append_length, drop-append_length,
}
use pscdrv.Wire.{Endian, little, big, htons, htonl, to_be, store}
use pscdrv.Recv.Frames.{Message, header_bytes, encode}
use pscdrv.Target.Socket.{Network, Sock, fails, moves, Move, send_by}
use pscdrv.Target.Msg.{
  Ret, fine, errno, hung, overran, and_then, after_send, send_loop, psc_sendall, psc_sendhead,
  psc_sendmsg, psc_sendmsgsingle, psc_header,
}

-- All bytes are put out, or an error is returned and they are cut short: a message is never put out
-- with other bytes, and the input is not touched.
abbrev pub Puts : List ℕ → Sock → Ret × Sock → Type 0
Puts buf s (fine, t) = (t.output ≡ s.output ++ buf) × (t.input ≡ s.input)
Puts buf s (errno e, t) =
    (k : ℕ) × (k < length buf) × (t.output ≡ s.output ++ take k buf) × (t.input ≡ s.input)
Puts buf s (hung, t) = ⊥
Puts buf s (overran, t) = ⊥

-- Part of the bytes are out already.
Puts-drop :
    (n : ℕ) (buf : List ℕ) (s t : Sock) (r : Ret × Sock)
    → n ≤ length buf
    → t.output ≡ s.output ++ take n buf
    → t.input ≡ s.input
    → Puts (drop n buf) t r
    → Puts buf s r
Puts-drop n buf s t (fine, u) h o i (eo, ei) = (
  eo
      ∙ ap (λ xs. xs ++ drop n buf) o
      ∙ append_assoc s.output (take n buf) (drop n buf)
      ∙ ap (λ xs. s.output ++ xs) (take-drop n buf),
  ei ∙ i,
)
Puts-drop n buf s t (errno e, u) h o i (k, lt, eo, ei) = (
  n + k,
  omega (arith, length-drop n buf),
  eo
      ∙ ap (λ xs. xs ++ take k (drop n buf)) o
      ∙ append_assoc s.output (take n buf) (take k (drop n buf))
      ∙ ap (λ xs. s.output ++ xs) (take-take-drop n k buf),
  ei ∙ i,
)
Puts-drop n buf s t (hung, u) h o i p = p
Puts-drop n buf s t (overran, u) h o i p = p

Puts-after_send :
    (loop : List ℕ → Sock → Ret × Sock) (m : Move) (buf : List ℕ) (s : Sock)
    → 0 < length buf
    → ((n : ℕ) (t : Sock) → 0 < n → n ≤ length buf → Puts (drop n buf) t (loop (drop n buf) t))
    → Puts buf s (after_send loop buf (send_by m buf s))
Puts-after_send loop (fails e) buf s h go = (0, h, sym (append-nil s.output), refl)
Puts-after_send loop (moves k) buf s h go = elim (Bool-cases (min k (length buf) == 0)) [
  | inl e ↦ rw e (0, h, ground arith, refl)
  | inr e ↦ rw e (
      Puts-drop (min k (length buf)) buf s
        (record s { output = s.output ++ take (min k (length buf)) buf; calls = suc s.calls }) _
        (omega arith) refl refl (go (min k (length buf)) _ (ground arith) (omega arith)))
]

Puts-nil : (net : Network) (fuel : ℕ) (s : Sock) → Puts [] s (send_loop net fuel [] s)
unfolding send_loop
Puts-nil net zero s = (sym (append-nil s.output), refl)
Puts-nil net (suc fuel) s = (sym (append-nil s.output), refl)

suc_eq_zero : (n : ℕ) → (suc n == 0) ≡ false
suc_eq_zero n = ground arith

Puts-send_loop :
    (net : Network) (fuel : ℕ) (buf : List ℕ) (s : Sock)
    → length buf ≤ fuel
    → Puts buf s (send_loop net fuel buf s)
unfolding send_loop
Puts-send_loop net fuel [] s h = Puts-nil net fuel s
Puts-send_loop net zero (x ∷ buf) s h = absurd (omega arith)
Puts-send_loop net (suc fuel) (x ∷ buf) s h = rw (suc_eq_zero (length buf)) (
    Puts-after_send (send_loop net fuel) (net s.calls) (x ∷ buf) s (omega arith) λ n t pos le.
      Puts-send_loop net fuel (drop n (x ∷ buf)) t (omega (arith, length-drop n (x ∷ buf))))

pub Puts-psc_sendall :
    (net : Network) (buf : List ℕ) (s : Sock) → Puts buf s (psc_sendall net buf s)
unfolding psc_sendall
Puts-psc_sendall net buf s = Puts-send_loop net (length buf) buf s (omega arith)

-- One write and then another.
pub Puts-and_then :
    (xs ys : List ℕ) (s : Sock) (r : Ret × Sock) (next : Sock → Ret × Sock)
    → Puts xs s r
    → ((t : Sock) → Puts ys t (next t))
    → Puts (xs ++ ys) s (and_then r next)
Puts-and_then xs ys s (fine, t) next (o, i) p =
    Puts-drop (length xs) (xs ++ ys) s t (next t) (omega (arith, length-append xs ys))
      (o ∙ ap (λ zs. s.output ++ zs) (sym (take-append_length xs ys))) i
      (subst (λ zs. Puts zs t (next t)) (sym (drop-append_length xs ys)) (p t))
Puts-and_then xs ys s (errno e, t) next (k, lt, o, i) p = (
  k,
  omega (arith, length-append xs ys),
  o ∙ ap (λ zs. s.output ++ zs) (sym (take-append_le k xs ys (omega arith))),
  i,
)
Puts-and_then xs ys s (hung, t) next h p = h
Puts-and_then xs ys s (overran, t) next h p = h

pub psc_header-eq :
    (host : Endian) (id len : ℕ)
    → id < 2 ^ 16
    → len < 2 ^ 32
    → psc_header host id len ≡ header_bytes id len
unfolding htons htonl
psc_header-eq little id len h k = ground arith
psc_header-eq big id len h k = refl

-- `psc_sendmsg` of a message of the protocol, whatever part of the bytes each `send` takes and
-- whenever one fails: it returns, either 0 with exactly the message of the protocol put out, or an
-- error with a part of it from its start, less than the whole; the input is not touched.
pub psc_sendmsg-encode :
    (host : Endian) (net : Network) (m : Message) (s : Sock)
    → m.id < 2 ^ 16
    → length m.body < 2 ^ 32
    → Puts (encode m) s (psc_sendmsg host net m.id m.body s)
unfolding psc_sendmsg psc_sendhead
psc_sendmsg-encode host net m s h k =
    Puts-and_then (header_bytes m.id (length m.body)) m.body s _ (psc_sendall net m.body)
      (rw (psc_header-eq host m.id (length m.body) h k)
        (Puts-psc_sendall net (header_bytes m.id (length m.body)) s))
      (λ t. Puts-psc_sendall net m.body t)

store32-eq : (host : Endian) (v : ℕ) → v < 2 ^ 32 → store host 4 (htonl host v) ≡ to_be 4 v
unfolding htonl
store32-eq little v h = ground arith
store32-eq big v h = refl

single_length :
    (value : List ℕ) → length value + 4 < 2 ^ 32 → (length value + 4) % 2 ^ 32 ≡ length value + 4
single_length value k = omega arith

-- The same of a single register: a message with the address before the value.
pub psc_sendmsgsingle-encode :
    (host : Endian) (net : Network) (id regid : ℕ) (value : List ℕ) (s : Sock)
    → id < 2 ^ 16
    → regid < 2 ^ 32
    → length value + 4 < 2 ^ 32
    → Puts
        (encode (record { id = id; body = to_be 4 regid ++ value }))
        s
        (psc_sendmsgsingle host net id regid value s)
unfolding psc_sendmsgsingle psc_sendhead
psc_sendmsgsingle-encode host net id regid value s h r k =
    let e : length value + 4 ≡ length (to_be 4 regid ++ value) = omega arith in
    subst
      (λ n.
        Puts (header_bytes id n ++ (to_be 4 regid ++ value)) s
          (psc_sendmsgsingle host net id regid value s))
      e
      (Puts-and_then (header_bytes id (length value + 4)) (to_be 4 regid ++ value) s _
        (λ t.
          and_then (psc_sendall net (store host 4 (htonl host regid)) t) (psc_sendall net value))
        (rw (single_length value k, psc_header-eq host id (length value + 4) h k)
          (Puts-psc_sendall net (header_bytes id (length value + 4)) s))
        (λ t.
          Puts-and_then (to_be 4 regid) value t _ (psc_sendall net value)
            (rw (store32-eq host regid r) (Puts-psc_sendall net (to_be 4 regid) t))
            (λ u. Puts-psc_sendall net value u)))
