-- ===== src/Target/Listener/Counts.antt =====
-- `client_count` of targetApp/listener.c over any sequence of connections, ends and messages.
use pscdrv.Common.{
  ℕ, [], ◌∷◌, length, Option, none, some, lookup, insert, ◌≡◌, refl, ◌∙◌, arith, ◌<◌, ◌≤◌, ◌+◌,
  Option-cases, inl, inr,
}
use pscdrv.Target.Listener.{
  Client, Key, Ran, ran, freed, endless, ◌>>=◌, PscConfig, psc_dis, call_conn, set_prev, set_next,
  count_down, unlink, leave, close_and_free, psc_accept, Accept, accept_error, accepted,
  psc_max_clients,
}
use pscdrv.Target.Listener.Chain.{Clients, length-erase}

-- The count is the number of clients in memory, at most four.
pub record IsCounted {A : Type 0} (k : Key A) : Type 0 where
  pub counted : k.client_count ≡ length k.clients
  pub bounded : k.client_count ≤ psc_max_clients

pub length-insert :
    (x : ℕ) (c old : Client) (m : Clients)
    → lookup x m ≡ some old
    → length (insert x c m) ≡ length m
length-insert x c old [] h = cc
length-insert x c old ((j, d) ∷ m) h = ground (arith, length-insert x c old m)

module _ {A : Type 0} where
  pub psc_accept-IsCounted : (a : Accept) (k : Key A) → IsCounted k → IsCounted (psc_accept a k)
  unfolding psc_accept
  psc_accept-IsCounted accept_error k v = v
  psc_accept-IsCounted (accepted sock fresh calloc malloc thread) k v = ground arith

  -- The two that an operation leaves as they were.
  abbrev pub SameCount : Key A → Ran A → Type 0
  SameCount k (ran k') = (k'.client_count ≡ k.client_count) × (length k'.clients ≡ length k.clients)
  SameCount k freed = Unit {0}
  SameCount k endless = Unit {0}

  set_prev-SameCount : (p q : Option ℕ) (k : Key A) → SameCount k (set_prev p q k)
  set_prev-SameCount none q k = (refl, refl)
  set_prev-SameCount (some n) q k = elim (Option-cases (lookup n k.clients)) [
    | inl e ↦ rw (set_prev, e) tt
    | inr (c, e) ↦ rw (set_prev, e) (refl, length-insert n (record c { prev = q }) c k.clients e)
  ]

  set_next-SameCount : (p q : Option ℕ) (k : Key A) → SameCount k (set_next p q k)
  set_next-SameCount none q k = (refl, refl)
  set_next-SameCount (some n) q k = elim (Option-cases (lookup n k.clients)) [
    | inl e ↦ rw (set_next, e) tt
    | inr (c, e) ↦ rw (set_next, e) (refl, length-insert n (record c { next = q }) c k.clients e)
  ]

  pub SameCount-trans :
      (k k' : Key A) (r : Ran A)
      → k'.client_count ≡ k.client_count
      → length k'.clients ≡ length k.clients
      → SameCount k' r
      → SameCount k r
  SameCount-trans k k' (ran k'') c l h = (h.0 ∙ c, h.1 ∙ l)
  SameCount-trans k k' freed c l h = tt
  SameCount-trans k k' endless c l h = tt

  SameCount-bind :
      (k : Key A) (r : Ran A) (f : Key A → Ran A)
      → SameCount k r
      → ((k' : Key A) → SameCount k' (f k'))
      → SameCount k (r >>= f)
  SameCount-bind k (ran k') f (c, l) go = SameCount-trans k k' (f k') c l (go k')
  SameCount-bind k freed f h go = tt
  SameCount-bind k endless f h go = tt

  -- What an operation promises of a key that it returns.
  abbrev pub Counted : Ran A → Type 0
  Counted (ran k) = IsCounted k
  Counted freed = Unit {0}
  Counted endless = Unit {0}

  close_and_free-Counted :
      (x : ℕ) (k : Key A)
      → k.client_count + 1 ≡ length k.clients
      → k.client_count ≤ psc_max_clients
      → Counted (close_and_free x k)
  close_and_free-Counted x k h b = elim (Option-cases (lookup x k.clients)) [
    | inl e ↦ rw (close_and_free, e) tt
    | inr (c, e) ↦
        rw (close_and_free, e)
          (record { counted = omega (arith, length-erase x k.clients c e); bounded = b })
  ]

  unlink-Counted :
      (conf : PscConfig A) (x : ℕ) (k : Key A) (r : Ran A)
      → ((k' : Key A) → call_conn conf psc_dis x k' ≡ ran k')
      → IsCounted k
      → 0 < length k.clients
      → SameCount k r
      → Counted
          (r >>= (λ k'. ran (count_down k')) >>= call_conn conf psc_dis x >>= close_and_free x)
  unlink-Counted conf x k (ran k') quiet v pos (c, l) = rw (quiet (count_down k')) (
      close_and_free-Counted x (count_down k') (omega (arith, v.counted, v.bounded))
        (omega (arith, v.counted, v.bounded)))
  unlink-Counted conf x k freed quiet v pos h = tt
  unlink-Counted conf x k endless quiet v pos h = tt

  pub leave-Counted :
      (conf : PscConfig A) (x : ℕ) (k : Key A)
      → ((k' : Key A) → call_conn conf psc_dis x k' ≡ ran k')
      → IsCounted k
      → Counted (leave conf x k)
  unfolding leave unlink
  leave-Counted conf x k quiet v = elim (Option-cases (lookup x k.clients)) [
    | inl e ↦ rw (leave, e) tt
    | inr (c, e) ↦
        rw (leave, e)
          (unlink-Counted conf x k (set_prev c.next c.prev k >>= set_next c.prev c.next) quiet v
            (omega (arith, length-erase x k.clients c e))
            (SameCount-bind k (set_prev c.next c.prev k) (set_next c.prev c.next)
              (set_prev-SameCount c.next c.prev k) (set_next-SameCount c.prev c.next)))
  ]
