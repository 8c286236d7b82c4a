-- ===== src/Target/Msg/Messages.antt =====
-- `psc_recvmsg` of targetApp/pscmsg.c against the protocol: whole messages and cut ones.
use pscdrv.Common.{
  ℕ, suc, List, ◌++◌, length, take, drop, ◌≡◌, refl, ◌∙◌, ap, sym, ◌-◌, ◌<◌, ◌≤◌, ◌^◌, arith, false,
  inl, inr, Bool-cases, ltb, length-drop, tests, take_all,
}
use pscdrv.Wire.{Endian, htonl, load, to_be}
use pscdrv.Recv.Frames.{Message, header_bytes, encode, decode16, decode32}
use pscdrv.Target.Socket.{Network}
use pscdrv.Target.Msg.{
  fine, skip_loop, psc_recvskip, head, message, psc_recvhead, psc_recvmsg, read_head, read_body,
  skipped,
}
use pscdrv.Target.Msg.Receives.{
  IsFlowing, reading, psc_recvall-flowing, skip_loop-flowing, drop-length,
}

ltb_self : (n : ℕ) → ltb n n ≡ false
ltb_self n = ground arith

short_le : (maxlen n : ℕ) → ltb maxlen n ≡ false → n ≤ maxlen
short_le maxlen n h = ground arith

module _ (host : Endian) (net : Network) (flow : IsFlowing net) where
  psc_recvhead-flowing :
      (id len : ℕ) (rest out : List ℕ) (c : ℕ)
      → id < 2 ^ 16
      → len < 2 ^ 32
      → (c' : ℕ) × (psc_recvhead host net (reading (header_bytes id len ++ rest) out c)
          ≡ head id len (reading rest out c'))
  unfolding psc_recvhead
  psc_recvhead-flowing id len rest out c h k =
      let (c', r) = psc_recvall-flowing net 8 (header_bytes id len) rest out c flow (omega arith) in
      (
        c',
        ap (read_head host) r
            ∙ ap (λ i. head i (htonl host (load host (to_be 4 len))) (reading rest out c'))
                (decode16 host id h)
            ∙ ap (λ i. head id i (reading rest out c')) (decode32 host len k),
      )

  psc_recvskip-flowing :
      (n : ℕ) (xs rest out : List ℕ) (c : ℕ)
      → n ≡ length xs
      → (c' : ℕ) × (psc_recvskip net n (reading (xs ++ rest) out c) ≡ (fine, reading rest out c'))
  unfolding psc_recvskip
  psc_recvskip-flowing n xs rest out c e =
      let (c', r) = skip_loop-flowing net (suc (length xs)) xs rest out c flow (omega arith) in
      (c', ap (λ i. skip_loop net (suc i) i (reading (xs ++ rest) out c)) e ∙ r)

  read_body-flowing :
      (maxlen : ℕ) (m : Message) (rest out : List ℕ) (c : ℕ)
      → (c' : ℕ) × (read_body net maxlen
            (head m.id (length m.body) (reading (m.body ++ rest) out c))
          ≡ message fine m.id (take maxlen m.body) (reading rest out c'))
  read_body-flowing maxlen m rest out c = elim (Bool-cases (ltb maxlen (length m.body))) [
    | inl long ↦
        let (c', r) = psc_recvall-flowing net maxlen m.body rest out c flow (omega (tests, long)) in
        let (c'', r') =
          psc_recvskip-flowing (length m.body - maxlen) (drop maxlen m.body) rest out c'
            (sym (length-drop maxlen m.body)) in
        (c'', rw (long, r, long) (ap (skipped m.id (take maxlen m.body)) r'))
    | inr short ↦
        let (c', r) =
          psc_recvall-flowing net (length m.body) m.body rest out c flow (omega arith) in
        let e : take (length m.body) m.body ≡ m.body =
          take_all {A = ℕ} (length m.body) m.body (omega arith) in
        (
          c',
          rw
              (
                short,
                r,
                ltb_self (length m.body),
                e,
                drop-length m.body,
                take_all {A = ℕ} maxlen m.body (short_le maxlen (length m.body) short),
              )
              refl,
        )
  ]

  -- `psc_recvmsg` of a message of the protocol, with any bytes behind it, where no call of `recv` fails:
  -- whatever bytes each call gets, it returns 0 with the ID of the message and as much of its body as
  -- the buffer holds, and leaves the bytes behind the message.
  pub psc_recvmsg-flowing :
      (maxlen : ℕ) (m : Message) (rest out : List ℕ) (c : ℕ)
      → m.id < 2 ^ 16
      → length m.body < 2 ^ 32
      → (c' : ℕ) × (psc_recvmsg host net maxlen (reading (encode m ++ rest) out c)
          ≡ message fine m.id (take maxlen m.body) (reading rest out c'))
  unfolding psc_recvmsg
  psc_recvmsg-flowing maxlen m rest out c h k =
      let (c', r) = psc_recvhead-flowing m.id (length m.body) (m.body ++ rest) out c h k in
      let (c'', r') = read_body-flowing maxlen m rest out c' in
      (c'', ap (read_body net maxlen) r ∙ r')
