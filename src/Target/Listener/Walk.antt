-- ===== src/Target/Listener/Walk.antt =====
-- `psc_send` of targetApp/listener.c: the walk over the linked list reaches every client once.
use pscdrv.Common.{
  ℕ, zero, suc, List, [], ◌∷◌, length, true, false, Option, none, some, lookup, ◌==◌, if◌then◌else◌,
  ◌≡◌, refl, ◌∙◌, ap, sym, arith, ◌<◌, lookup-insert, inl, inr, Bool-cases, ==_iff, subst, ◌⊎◌,
}
use pscdrv.Wire.{Endian}
use pscdrv.Target.Socket.{Network}
use pscdrv.Target.Msg.{psc_sendmsg}
use pscdrv.Target.Listener.{Client, Key, ran, sent, send_to, send_walk, psc_send}
use pscdrv.Target.Socket.{Sock}
use pscdrv.Target.Msg.{Ret, fine, errno, hung, overran}
use pscdrv.Target.Listener.Chain.{has, Chain, Chain-same, Chain-length}

-- What `psc_send` makes of a client that is in the list.
unfoldable pub after : Endian → (ℕ → Network) → ℕ → List ℕ → ℕ → Client → Client
after host nets msgid msg x c =
    if c.active then (sent c (psc_sendmsg host (nets x) msgid msg c.out)).0 else c

-- `after` at each of `xs`.
abbrev pub after_all :
    Endian → (ℕ → Network) → ℕ → List ℕ → List ℕ → ℕ → Option Client → Option Client
after_all host nets msgid msg xs x none = none
after_all host nets msgid msg xs x (some c) =
    some (if has x xs then after host nets msgid msg x c else c)

sent-next : (c : Client) (r : Ret × Sock) → (sent c r).0.next ≡ c.next
sent-next c (fine, s) = refl
sent-next c (errno e, s) = refl
sent-next c (hung, s) = refl
sent-next c (overran, s) = refl

sent-prev : (c : Client) (r : Ret × Sock) → (sent c r).0.prev ≡ c.prev
sent-prev c (fine, s) = refl
sent-prev c (errno e, s) = refl
sent-prev c (hung, s) = refl
sent-prev c (overran, s) = refl

module _ (host : Endian) (nets : ℕ → Network) (msgid : ℕ) (msg : List ℕ) where
  pub after-next : (x : ℕ) (c : Client) → (after host nets msgid msg x c).next ≡ c.next
  unfolding after
  after-next x c = ground (arith, sent-next c (psc_sendmsg host (nets x) msgid msg c.out))

  pub after-prev : (x : ℕ) (c : Client) → (after host nets msgid msg x c).prev ≡ c.prev
  unfolding after
  after-prev x c = ground (arith, sent-prev c (psc_sendmsg host (nets x) msgid msg c.out))

  visit_keeps :
      (x y : ℕ) (c c0 : Client) (o : Option Client)
      → ((y == x) ≡ true) ⊎ ((y == x) ≡ false)
      → (y == x ≡ true → c0 ≡ c)
      → o ≡ (if y == x then some (after host nets msgid msg x c) else some c0)
      → (c' : Client) × (o ≡ some c') × (c'.next ≡ c0.next) × (c'.prev ≡ c0.prev)
  visit_keeps x y c c0 o (inl e) same h = (
    after host nets msgid msg x c,
    h ∙ rw e refl,
    after-next x c ∙ ap (λ d. Client.next d) (sym (same e)),
    after-prev x c ∙ ap (λ d. Client.prev d) (sym (same e)),
  )
  visit_keeps x y c c0 o (inr e) same h = (c0, h ∙ rw e refl, refl, refl)

  after_all_other :
      (x y : ℕ) (xs : List ℕ) (o : Option Client)
      → (y == x) ≡ false
      → after_all host nets msgid msg xs y o ≡ after_all host nets msgid msg (x ∷ xs) y o
  after_all_other x y xs none e = refl
  after_all_other x y xs (some c) e = rw e refl

  after_all_nil : (y : ℕ) (o : Option Client) → o ≡ after_all host nets msgid msg [] y o
  after_all_nil y none = refl
  after_all_nil y (some c) = refl

  after_all_self :
      (x : ℕ) (c : Client) (xs : List ℕ)
      → has x xs ≡ false
      → after_all host nets msgid msg xs x (some (after host nets msgid msg x c))
        ≡ after_all host nets msgid msg (x ∷ xs) x (some c)
  after_all_self x c xs out = rw (out, (==_iff x x).1 refl) refl

module _ {A : Type 0} (host : Endian) (nets : ℕ → Network) (msgid : ℕ) (msg : List ℕ) where
  -- One visit of the walk.
  abbrev visit : ℕ → Client → Key A → Key A
  visit x c k = if c.active then send_to host nets msgid msg x c k else k

  lookup-visit :
      (x y : ℕ) (c : Client) (k : Key A)
      → lookup x k.clients ≡ some c
      → lookup y (visit x c k).clients
        ≡ (if y == x then some (after host nets msgid msg x c) else lookup y k.clients)
  unfolding send_to after
  lookup-visit x y c k h =
      ground
        (arith, lookup-insert x y (sent c (psc_sendmsg host (nets x) msgid msg c.out)).0 k.clients)

  visit-Chain :
      (x : ℕ) (c : Client) (k : Key A) (p : Option ℕ) (xs : List ℕ)
      → lookup x k.clients ≡ some c
      → Chain k.clients p xs
      → Chain (visit x c k).clients p xs
  visit-Chain x c k p xs h = Chain-same k.clients (visit x c k).clients p xs λ y c0 l.
      visit_keeps host nets msgid msg x y c c0 _ (Bool-cases (y == x)) (λ e. ground arith)
        (lookup-visit x y c k h
          ∙ ap (λ o. if y == x then some (after host nets msgid msg x c) else o) l)

  visit_pointers :
      (x : ℕ) (c : Client) (k : Key A)
      → ((visit x c k).client_head ≡ k.client_head) × ((visit x c k).client_count ≡ k.client_count)
  unfolding send_to
  visit_pointers x c k = ground arith

  after_all_step :
      (x y : ℕ) (c : Client) (xs : List ℕ) (k : Key A)
      → lookup x k.clients ≡ some c
      → has x xs ≡ false
      → ((y == x) ≡ true) ⊎ ((y == x) ≡ false)
      → after_all host nets msgid msg xs y
          (if y == x then some (after host nets msgid msg x c) else lookup y k.clients)
        ≡ after_all host nets msgid msg (x ∷ xs) y (lookup y k.clients)
  after_all_step x y c xs k l out (inl e) = rw e (
      subst
        (λ z.
          after_all host nets msgid msg xs z (some (after host nets msgid msg x c))
          ≡ after_all host nets msgid msg (x ∷ xs) z (lookup z k.clients))
        (sym ((==_iff y x).0 e)) (rw l (after_all_self host nets msgid msg x c xs out)))
  after_all_step x y c xs k l out (inr e) =
      rw e (after_all_other host nets msgid msg x y xs (lookup y k.clients) e)

  send_walk-visit :
      (fuel x : ℕ) (c : Client) (k : Key A)
      → lookup x k.clients ≡ some c
      → send_walk host nets (suc fuel) msgid msg (some x) k
        ≡ send_walk host nets fuel msgid msg c.next (visit x c k)
  unfolding send_walk
  send_walk-visit fuel x c k l = rw (send_walk, l) refl

  send_walk-Chain :
      (fuel : ℕ) (k : Key A) (p : Option ℕ) (xs : List ℕ)
      → length xs < fuel
      → Chain k.clients p xs
      → (k' : Key A) × (send_walk host nets fuel msgid msg p k ≡ ran k')
        × ((y : ℕ) → lookup y k'.clients ≡ after_all host nets msgid msg xs y (lookup y k.clients))
        × (k'.client_head ≡ k.client_head)
        × (k'.client_count ≡ k.client_count)
  unfolding send_walk
  send_walk-Chain zero k p xs h ch = absurd (omega arith)
  send_walk-Chain (suc fuel) k p [] h ch =
      (k, rw ch refl, (λ y. after_all_nil host nets msgid msg y (lookup y k.clients)), refl, refl)
  send_walk-Chain (suc fuel) k p (x ∷ xs) h (c, e, l, pr, out, ch) =
      let (k', r, look, hd, ct) =
        send_walk-Chain fuel (visit x c k) c.next xs (omega arith)
          (visit-Chain x c k c.next xs l ch) in
      (
        k',
        rw e (send_walk-visit fuel x c k l ∙ r),
        (λ y.
            look y
            ∙ ap (after_all host nets msgid msg xs y) (lookup-visit x y c k l)
            ∙ after_all_step x y c xs k l out (Bool-cases (y == x))),
        hd ∙ (visit_pointers x c k).0,
        ct ∙ (visit_pointers x c k).1,
      )

-- `psc_send` where the clients `xs` are linked by their `next` pointers from the head: it returns;
-- each of these clients that is active has been sent the message, and has been given up if that
-- failed; no other client is touched, nor the list or its count.
pub psc_send-Chain :
    {A : Type 0} (host : Endian) (nets : ℕ → Network) (msgid : ℕ) (msg : List ℕ) (k : Key A)
    (xs : List ℕ)
    → Chain k.clients k.client_head xs
    → (k' : Key A) × (psc_send host nets msgid msg k ≡ ran k')
      × ((y : ℕ) → lookup y k'.clients ≡ after_all host nets msgid msg xs y (lookup y k.clients))
      × (k'.client_head ≡ k.client_head)
      × (k'.client_count ≡ k.client_count)
unfolding psc_send
psc_send-Chain host nets msgid msg k xs ch =
    send_walk-Chain host nets msgid msg (suc (length k.clients)) k k.client_head xs
      (omega (arith, Chain-length k.clients k.client_head xs ch)) ch
