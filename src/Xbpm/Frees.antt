-- ===== src/Xbpm/Frees.antt =====
-- `freeconn` of xbpmApp/target/main.c: the list of connections is linked both ways.
pub mod Segments
use pscdrv.Common.{
  ℕ, zero, suc, List, [], ◌∷◌, ◌++◌, Bool, true, false, Option, none, some, lookup, insert, ◌==◌,
  ◌||◌, if◌then◌else◌, ◌≡◌, refl, ◌∙◌, ap, sym, arith, lookup-insert, subst,
}
use pscdrv.Xbpm.{
  Connection, Server, Ran, ran, ◌>>=◌, at, at-found, put, erase, link_next, link_prev, freeconn,
}
use pscdrv.Xbpm.Frees.Segments.{
  Conns, has, Segment, frame, cut, join, set_last, set_first, lookup-erase,
}

link_next-some :
    (x p : ℕ) (c prev : Connection) (s : Server)
    → c.conn_prev ≡ some p
    → lookup p s.conns ≡ some prev
    → link_next x c s ≡ ran (put p (record prev { conn_next = c.conn_next }) s)
link_next-some x p c prev s e l =
    rw (link_next, e)
      (ap (λ r. r >>= λ (t : Connection). ran (put p (record t { conn_next = c.conn_next }) s))
        (at-found p s l))

link_prev-some :
    (n : ℕ) (c next : Connection) (s : Server)
    → c.conn_next ≡ some n
    → lookup n s.conns ≡ some next
    → link_prev c s ≡ ran (put n (record next { conn_prev = c.conn_prev }) s)
link_prev-some n c next s e l =
    rw (link_prev, e)
      (ap (λ r. r >>= λ (t : Connection). ran (put n (record t { conn_prev = c.conn_prev }) s))
        (at-found n s l))

link_next-Segment :
    (x : ℕ) (c : Connection) (s : Server) (front : List ℕ) (q : Option ℕ)
    → q ≡ some x
    → Segment s.conns none s.conn_first front c.conn_prev q
    → (s' : Server) × (link_next x c s ≡ ran s')
      × Segment s'.conns none s'.conn_first front c.conn_prev c.conn_next
      × ((z : ℕ) → has z front ≡ false → lookup z s'.conns ≡ lookup z s.conns)
link_next-Segment x c s [] q at_x (first, e) =
    let self : (x == x) ≡ true = ground arith in
    let here : s.conn_first ≡ some x = e ∙ at_x in
    (
      record s { conn_first = c.conn_next },
      rw (link_next, ← first, here, self) refl,
      (first, refl),
      λ z h. refl,
    )
link_next-Segment x c s (f ∷ fs) q at_x seg =
    let (w, cw, last, inside, lw, seg') =
      set_last s.conns none s.conn_first f fs c.conn_prev q c.conn_next seg in
    (
      put w (record cw { conn_next = c.conn_next }) s,
      link_next-some x w c cw s last lw,
      seg',
      λ z h. ground (arith, lookup-insert w z (record cw { conn_next = c.conn_next }) s.conns),
    )

link_prev-Segment :
    (x : ℕ) (c : Connection) (s : Server) (back : List ℕ) (last : Option ℕ)
    → Segment s.conns (some x) c.conn_next back last none
    → (s' : Server) × (last' : Option ℕ) × (link_prev c s ≡ ran s')
      × Segment s'.conns c.conn_prev c.conn_next back last' none
      × (s'.conn_first ≡ s.conn_first)
      × ((z : ℕ) → has z back ≡ false → lookup z s'.conns ≡ lookup z s.conns)
link_prev-Segment x c s [] last (_, e) =
    (s, c.conn_prev, rw (link_prev, e) refl, (refl, e), refl, λ z h. refl)
link_prev-Segment x c s (y ∷ ys) last seg =
    let (cy, e, l, seg') = set_first s.conns (some x) c.conn_next y ys last none c.conn_prev seg in
    (
      put y (record cy { conn_prev = c.conn_prev }) s,
      last,
      link_prev-some y c cy s e l,
      seg',
      refl,
      λ z h. ground (arith, lookup-insert y z (record cy { conn_prev = c.conn_prev }) s.conns),
    )

freeconn-ran :
    (x : ℕ) (c : Connection) (s s' s'' : Server)
    → lookup x s.conns ≡ some c
    → link_next x c s ≡ ran s'
    → link_prev c s' ≡ ran s''
    → freeconn x s ≡ ran (record s'' { conns = erase x s''.conns })
unfolding freeconn
freeconn-ran x c s s' s'' l e f =
    ap
      (λ r. r >>= λ (t : Connection). link_next x t s >>= link_prev t >>= λ (u : Server).
        ran (record u { conns = erase x u.conns }))
      (at-found x s l)
    ∙ ap (λ r. r >>= link_prev c >>= λ (u : Server). ran (record u { conns = erase x u.conns })) e
    ∙ ap (λ r. r >>= λ (u : Server). ran (record u { conns = erase x u.conns })) f

-- A connection that is given up, wherever it stands in a list that is linked both ways: no assertion
-- fails and no freed memory is used, it is gone from the list, and the connections before and behind it
-- stay linked both ways in their order.
pub freeconn-Segment :
    (s : Server) (front : List ℕ) (x : ℕ) (back : List ℕ) (last : Option ℕ)
    → Segment s.conns none s.conn_first (front ++ x ∷ back) last none
    → (s' : Server) × (last' : Option ℕ) × (freeconn x s ≡ ran s')
      × Segment s'.conns none s'.conn_first (front ++ back) last' none
freeconn-Segment s front x back last seg =
    let (b, q, before, (c, e, l, pr, out, behind), apart) =
      cut s.conns none s.conn_first front (x ∷ back) last none seg in
    let (s1, r1, before1, same1) =
      link_next-Segment x c s front q e
        (subst (λ p. Segment s.conns none s.conn_first front p q) (sym pr) before) in
    let (s2, last', r2, behind2, first, same2) = link_prev-Segment x c s1 back last (
      frame s.conns s1.conns (some x) c.conn_next back last none
        (λ z h. same1 z (ground (arith, apart z))) behind) in
    let not_before : has x front ≡ false = ground (arith, apart x) in
    let s3 : Server = record s2 { conns = erase x s2.conns } in
    (
      s3,
      last',
      freeconn-ran x c s s1 s2 l r1 r2,
      join s3.conns none s3.conn_first front back c.conn_prev c.conn_next last' none
          (subst (λ p. Segment s3.conns none p front c.conn_prev c.conn_next) (sym first)
            (frame s1.conns s3.conns none s1.conn_first front c.conn_prev c.conn_next
              (λ z h. lookup-erase x z s2.conns (ground arith) ∙ same2 z (ground (arith, apart z)))
              before1))
          (frame s2.conns s3.conns c.conn_prev c.conn_next back last' none
            (λ z h. lookup-erase x z s2.conns (ground arith)) behind2)
          (λ z h. ground (arith, apart z)),
    )
