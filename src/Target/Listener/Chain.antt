-- ===== src/Target/Listener/Chain.antt =====
-- The linked list of clients of targetApp/listener.c against a plain list.
use pscdrv.Common.{
  ℕ, suc, List, [], ◌∷◌, length, Bool, false, Option, none, some, lookup, ◌==◌, ◌||◌, ◌≡◌, refl,
  ◌∙◌, arith, ◌≤◌,
}
use pscdrv.Target.Listener.{Client, erase}

abbrev pub Clients : Type 0
Clients = List (ℕ × Client)

abbrev pub has : ℕ → List ℕ → Bool
has x [] = false
has x (y ∷ ys) = (x == y) || has x ys

-- From `p` the `next` pointers lead through the clients `xs`, all different, with no `prev` set.
abbrev pub Chain : Clients → Option ℕ → List ℕ → Type 0
Chain m p [] = p ≡ none
Chain m p (x ∷ xs) =
    (c : Client) × (p ≡ some x)
    × (lookup x m ≡ some c)
    × (c.prev ≡ none)
    × (has x xs ≡ false)
    × Chain m c.next xs

-- A change at a client before the chain, or one that keeps the pointers, keeps the chain.
pub Chain-same :
    (m m' : Clients) (p : Option ℕ) (xs : List ℕ)
    → ((x : ℕ) (c : Client)
        → lookup x m ≡ some c
        → (c' : Client) × (lookup x m' ≡ some c') × (c'.next ≡ c.next) × (c'.prev ≡ c.prev))
    → Chain m p xs
    → Chain m' p xs
Chain-same m m' p [] same h = h
Chain-same m m' p (x ∷ xs) same (c, e, l, pr, ap', ch) =
    let (c', l', n, pr') = same x c l in
    (c', e, l', pr' ∙ pr, ap', Chain-same m m' c'.next xs same (rw n ch))

pub lookup-erase : (y x : ℕ) (m : Clients) → (x == y) ≡ false → lookup x (erase y m) ≡ lookup x m
lookup-erase y x [] h = refl
lookup-erase y x ((j, v) ∷ m) h = ground (arith, lookup-erase y x m h)

pub length-erase :
    (x : ℕ) (m : Clients) (c : Client) → lookup x m ≡ some c → suc (length (erase x m)) ≡ length m
length-erase x [] c h = cc
length-erase x ((j, v) ∷ m) c h = ground (arith, length-erase x m c)

pub Chain-erase :
    (y : ℕ) (m : Clients) (p : Option ℕ) (xs : List ℕ)
    → has y xs ≡ false
    → Chain m p xs
    → Chain (erase y m) p xs
Chain-erase y m p [] out h = h
Chain-erase y m p (x ∷ xs) out (c, e, l, pr, ap', ch) = (
  c,
  e,
  lookup-erase y x m (ground arith) ∙ l,
  pr,
  ap',
  Chain-erase y m c.next xs (ground arith) ch,
)

-- A chain has no more clients than there are.
pub Chain-length : (m : Clients) (p : Option ℕ) (xs : List ℕ) → Chain m p xs → length xs ≤ length m
Chain-length m p [] h = omega arith
Chain-length m p (x ∷ xs) (c, e, l, pr, ap', ch) = omega (
  arith,
  length-erase x m c l,
  Chain-length (erase x m) c.next xs (Chain-erase x m c.next xs ap' ch),
)
