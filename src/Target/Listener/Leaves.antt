-- ===== src/Target/Listener/Leaves.antt =====
-- The end of `handle_client` of targetApp/listener.c: how a client leaves the linked list.
use mathlib.Core.List.{append_assoc}
use pscdrv.Common.{
  ℕ, List, [], ◌∷◌, ◌++◌, false, Option, none, some, lookup, insert, ◌==◌, ◌≡◌, refl, ◌∙◌, ap, sym,
  arith, ◌+◌, ◌-◌, ◌%◌, ◌^◌, lookup-insert, subst,
}
use pscdrv.Target.Listener.{
  Client, Key, ran, freed, ◌>>=◌, PscConfig, psc_dis, call_conn, set_prev, unlink, leave, erase,
}
use pscdrv.Target.Listener.Chain.{Clients, has, Chain, Chain-same, Chain-erase, lookup-erase}

-- No two clients at one address.
abbrev pub IsMap : Clients → Type 0
IsMap [] = Unit {0}
IsMap ((j, c) ∷ m) = (lookup j m ≡ none) × IsMap m

lookup-insert_none :
    (j k : ℕ) (c : Client) (m : Clients) (old : Client)
    → lookup k m ≡ some old
    → lookup j m ≡ none
    → lookup j (insert k c m) ≡ none
lookup-insert_none j k c m old h e = ground (arith, lookup-insert k j c m)

pub insert-IsMap :
    (k : ℕ) (c old : Client) (m : Clients) → lookup k m ≡ some old → IsMap m → IsMap (insert k c m)
insert-IsMap k c old [] h v = cc
insert-IsMap k c old ((j, d) ∷ m) h v =
    ground (arith, insert-IsMap k c old m, lookup-insert_none j k c m old)

pub lookup-erase_self : (x : ℕ) (m : Clients) → IsMap m → lookup x (erase x m) ≡ none
lookup-erase_self x [] v = refl
lookup-erase_self x ((j, d) ∷ m) v = ground (arith, lookup-erase_self x m)

-- A client in the middle of a chain.
Chain-at :
    (m : Clients) (p : Option ℕ) (front : List ℕ) (x : ℕ) (back : List ℕ)
    → Chain m p (front ++ x ∷ back)
    → (c : Client) × (lookup x m ≡ some c)
      × (c.prev ≡ none)
      × (has x back ≡ false)
      × Chain m c.next back
Chain-at m p [] x back (c, e, l, pr, out, ch) = (c, l, pr, out, ch)
Chain-at m p (y ∷ front) x back (c, e, l, pr, out, ch) = Chain-at m c.next front x back ch

Chain-ext :
    (m m' : Clients) (p : Option ℕ) (xs : List ℕ)
    → ((y : ℕ) → lookup y m' ≡ lookup y m)
    → Chain m p xs
    → Chain m' p xs
Chain-ext m m' p xs same = Chain-same m m' p xs λ y c l. (c, same y ∙ l, refl, refl)

module _ {A : Type 0} where
  -- Where `prev` is not set, setting it to null changes nothing.
  set_prev-Chain :
      (p : Option ℕ) (xs : List ℕ) (k : Key A)
      → IsMap k.clients
      → Chain k.clients p xs
      → (m : Clients) × (set_prev p none k ≡ ran (record k { clients = m }))
        × ((y : ℕ) → lookup y m ≡ lookup y k.clients)
        × IsMap m
  set_prev-Chain p [] k v ch = (k.clients, rw ch refl, (λ y. refl), v)
  set_prev-Chain p (x ∷ xs) k v (c, e, l, pr, out, ch) = (
    insert x (record c { prev = none }) k.clients,
    rw e (rw (set_prev, l) refl),
    (λ y. ground (arith, lookup-insert x y (record c { prev = none }) k.clients)),
    insert-IsMap x (record c { prev = none }) c k.clients l v,
  )

  -- The end of a client that no `prev` leads from, with a callback that does nothing.
  leave_at :
      (conf : PscConfig A) (x : ℕ) (c : Client) (k : Key A) (m : Clients)
      → ((k' : Key A) → call_conn conf psc_dis x k' ≡ ran k')
      → lookup x k.clients ≡ some c
      → c.prev ≡ none
      → set_prev c.next none k ≡ ran (record k { clients = m })
      → lookup x m ≡ some c
      → leave conf x k
        ≡ ran (record k {
          client_count = (k.client_count + 2 ^ 32 - 1) % 2 ^ 32;
          client_head = c.next;
          clients = erase x m;
          closed = k.closed ++ c.sock ∷ [];
        })
  unfolding leave unlink
  leave_at conf x c k m quiet l pr e l' = rw (leave, l) (rw (pr, e) (rw (quiet _) (rw l' refl)))

  leave_gone :
      (conf : PscConfig A) (y x : ℕ) (c : Client) (k : Key A)
      → lookup y k.clients ≡ some c
      → c.next ≡ some x
      → lookup x k.clients ≡ none
      → leave conf y k ≡ freed
  unfolding leave unlink
  leave_gone conf y x c k l n gone = rw (leave, l) (rw n (rw (set_prev, gone) refl))

module _ {A : Type 0} (conf : PscConfig A) (x : ℕ) (back : List ℕ) (k : Key A)
    (quiet : (k' : Key A) → call_conn conf psc_dis x k' ≡ ran k') (v : IsMap k.clients) where
  -- A client that leaves the list, with no callback for it: no matter how many clients `front` stand
  -- before it, the list is left with those behind it alone, while memory loses this client only; the
  -- count falls by one.
  pub leave-Chain :
      (front : List ℕ)
      → Chain k.clients k.client_head (front ++ x ∷ back)
      → (k' : Key A) × (leave conf x k ≡ ran k')
        × Chain k'.clients k'.client_head back
        × ((y : ℕ) → (y == x) ≡ false → lookup y k'.clients ≡ lookup y k.clients)
        × (lookup x k'.clients ≡ none)
        × (k'.client_count ≡ (k.client_count + 2 ^ 32 - 1) % 2 ^ 32)
  leave-Chain front ch =
      let (c, l, pr, out, tail) = Chain-at k.clients k.client_head front x back ch in
      let (m, e, same, map) = set_prev-Chain c.next back k v tail in
      let k' : Key A = record k {
        client_count = (k.client_count + 2 ^ 32 - 1) % 2 ^ 32;
        client_head = c.next;
        clients = erase x m;
        closed = k.closed ++ c.sock ∷ [];
      } in
      (
        k',
        leave_at conf x c k m quiet l pr e (same x ∙ l),
        Chain-erase x m c.next back out (Chain-ext k.clients m c.next back same tail),
        (λ y ne. lookup-erase x y m ne ∙ same y),
        lookup-erase_self x m map,
        refl,
      )

  -- And if then the client before it leaves, memory that has been freed is used: `next` of that
  -- client still leads to the one that left.
  pub leave-leave-freed :
      (front : List ℕ) (y : ℕ)
      → Chain k.clients k.client_head (front ++ y ∷ x ∷ back)
      → (leave conf x k >>= leave conf y) ≡ freed
  leave-leave-freed front y ch =
      let (cy, ly, _, out, (_, n, _, _, _, _)) =
        Chain-at k.clients k.client_head front y (x ∷ back) ch in
      let whole : (front ++ y ∷ []) ++ x ∷ back ≡ front ++ y ∷ x ∷ back =
        append_assoc front (y ∷ []) (x ∷ back) in
      let (k', e, _, same, gone, _) =
        leave-Chain (front ++ y ∷ []) (subst (Chain k.clients k.client_head) (sym whole) ch) in
      ap (λ r. r >>= leave conf y) e ∙ leave_gone conf y x cy k' (same y (ground arith) ∙ ly) n gone
