-- ===== src/Xbpm/Frees/Segments.antt =====
-- Parts of the list of connections of xbpmApp/target/main.c.
use pscdrv.Common.{
  ℕ, List, [], ◌∷◌, ◌++◌, Bool, true, false, Option, some, lookup, insert, ◌==◌, ◌||◌, ◌≡◌, refl,
  ◌∙◌, sym, arith, lookup-insert,
}
use pscdrv.Xbpm.{Connection, erase}

abbrev pub Conns : Type 0
Conns = List (ℕ × Connection)

abbrev pub has : ℕ → List ℕ → Bool
has x [] = false
has x (y ∷ ys) = (x == y) || has x ys

-- From `p`, whose `conn_prev` is `a`, the connections `xs`, all different, lead to `q`; `b` is the last.
abbrev pub Segment : Conns → Option ℕ → Option ℕ → List ℕ → Option ℕ → Option ℕ → Type 0
Segment m a p [] b q = (a ≡ b) × (p ≡ q)
Segment m a p (x ∷ xs) b q =
    (c : Connection) × (p ≡ some x)
    × (lookup x m ≡ some c)
    × (c.conn_prev ≡ a)
    × (has x xs ≡ false)
    × Segment m (some x) c.conn_next xs b q

-- A change elsewhere.
pub frame :
    (m m' : Conns) (a p : Option ℕ) (xs : List ℕ) (b q : Option ℕ)
    → ((z : ℕ) → has z xs ≡ true → lookup z m' ≡ lookup z m)
    → Segment m a p xs b q
    → Segment m' a p xs b q
frame m m' a p [] b q same s = s
frame m m' a p (x ∷ xs) b q same (c, e, l, pr, out, s) = (
  c,
  e,
  same x (ground arith) ∙ l,
  pr,
  out,
  frame m m' (some x) c.conn_next xs b q (λ z h. same z (ground arith)) s,
)

pub has-append : (z : ℕ) (xs ys : List ℕ) → has z (xs ++ ys) ≡ (has z xs || has z ys)
has-append z [] ys = refl
has-append z (x ∷ xs) ys = ground (arith, has-append z xs ys)

-- A segment in two, which share no connection.
pub cut :
    (m : Conns) (a p : Option ℕ) (xs ys : List ℕ) (b q : Option ℕ)
    → Segment m a p (xs ++ ys) b q
    → (b' q' : Option ℕ) × Segment m a p xs b' q'
      × Segment m b' q' ys b q
      × ((z : ℕ) → has z xs ≡ true → has z ys ≡ false)
cut m a p [] ys b q s = (a, p, (refl, refl), s, λ z h. cc)
cut m a p (x ∷ xs) ys b q (c, e, l, pr, out, s) =
    let (b', q', front, back, apart) = cut m (some x) c.conn_next xs ys b q s in
    (
      b',
      q',
      (c, e, l, pr, ground (arith, has-append x xs ys), front),
      back,
      λ z h. ground (arith, has-append x xs ys, apart z),
    )

pub join :
    (m : Conns) (a p : Option ℕ) (xs ys : List ℕ) (b' q' b q : Option ℕ)
    → Segment m a p xs b' q'
    → Segment m b' q' ys b q
    → ((z : ℕ) → has z xs ≡ true → has z ys ≡ false)
    → Segment m a p (xs ++ ys) b q
join m a p [] ys b' q' b q (e, f) back apart = rw (e, f) back
join m a p (x ∷ xs) ys b' q' b q (c, e, l, pr, out, s) back apart = (
  c,
  e,
  l,
  pr,
  ground (arith, has-append x xs ys, apart x),
  join m (some x) c.conn_next xs ys b' q' b q s back (λ z h. apart z (ground arith)),
)

pub lookup-erase : (y x : ℕ) (m : Conns) → (x == y) ≡ false → lookup x (erase y m) ≡ lookup x m
lookup-erase y x [] h = refl
lookup-erase y x ((j, v) ∷ m) h = ground (arith, lookup-erase y x m h)

-- Another `conn_next` for the last connection.
pub set_last :
    (m : Conns) (a p : Option ℕ) (x : ℕ) (xs : List ℕ) (b q n : Option ℕ)
    → Segment m a p (x ∷ xs) b q
    → (w : ℕ) × (c : Connection) × (b ≡ some w)
      × (has w (x ∷ xs) ≡ true)
      × (lookup w m ≡ some c)
      × Segment (insert w (record c { conn_next = n }) m) a p (x ∷ xs) b n
set_last m a p x [] b q n (c, e, l, pr, out, (last, _)) = (
  x,
  c,
  sym last,
  ground arith,
  l,
  (
    record c { conn_next = n },
    e,
    ground (arith, lookup-insert x x (record c { conn_next = n }) m),
    pr,
    out,
    (last, refl),
  ),
)
set_last m a p x (y ∷ ys) b q n (c, e, l, pr, out, s) =
    let (w, cw, last, in_tail, lw, s') = set_last m (some x) c.conn_next y ys b q n s in
    (
      w,
      cw,
      last,
      ground arith,
      lw,
      (c, e, ground (arith, lookup-insert w x (record cw { conn_next = n }) m), pr, out, s'),
    )

-- Another `conn_prev` for the first.
pub set_first :
    (m : Conns) (a p : Option ℕ) (x : ℕ) (xs : List ℕ) (b q a' : Option ℕ)
    → Segment m a p (x ∷ xs) b q
    → (c : Connection) × (p ≡ some x)
      × (lookup x m ≡ some c)
      × Segment (insert x (record c { conn_prev = a' }) m) a' p (x ∷ xs) b q
set_first m a p x xs b q a' (c, e, l, pr, out, s) = (
  c,
  e,
  l,
  (
    record c { conn_prev = a' },
    e,
    ground (arith, lookup-insert x x (record c { conn_prev = a' }) m),
    refl,
    out,
    frame m (insert x (record c { conn_prev = a' }) m) (some x) c.conn_next xs b q
        (λ z h. ground (arith, lookup-insert x z (record c { conn_prev = a' }) m)) s,
  ),
)
