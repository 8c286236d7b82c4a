-- ===== src/Common/Lists.antt =====
-- Lists measured and cut by native numbers, and association lists keyed by numbers.
use Prim.Native.Nat.{ℕ, zero, suc, ◌+◌, ◌-◌, ◌≤◌, ◌<◌, min}
use mathlib.Core.Path.{◌≡◌, refl, sym, ap, ◌∙◌}
use mathlib.Core.Logic.{◌⊎◌, inr}
use mathlib.Core.List.{List, [], ◌∷◌, ◌++◌}
use mathlib.Core.Option.{Option, none, some}
use native.Mathlib.Omega.{arith}
use pscdrv.Common.Tests.{◌==◌, if◌then◌else◌}

module _ {ℓ} {A : Type ℓ} where
  abbrev pub length : List A → ℕ
  length [] = 0
  length (x ∷ xs) = suc (length xs)

  abbrev pub take : ℕ → List A → List A
  take zero xs = []
  take (suc n) [] = []
  take (suc n) (x ∷ xs) = x ∷ take n xs

  abbrev pub drop : ℕ → List A → List A
  drop zero xs = xs
  drop (suc n) [] = []
  drop (suc n) (x ∷ xs) = drop n xs

  abbrev pub replicate : ℕ → A → List A
  replicate zero a = []
  replicate (suc n) a = a ∷ replicate n a

  abbrev pub get_or : List A → ℕ → A → A
  get_or [] i d = d
  get_or (x ∷ xs) zero d = x
  get_or (x ∷ xs) (suc i) d = get_or xs i d

  pub length-append : (xs ys : List A) → length (xs ++ ys) ≡ length xs + length ys
  length-append [] ys = omega arith
  length-append (x ∷ xs) ys = omega (arith, length-append xs ys)

  pub length-take : (n : ℕ) (xs : List A) → length (take n xs) ≡ min n (length xs)
  length-take zero xs = omega arith
  length-take (suc n) [] = omega arith
  length-take (suc n) (x ∷ xs) = omega (arith, length-take n xs)

  pub length-drop : (n : ℕ) (xs : List A) → length (drop n xs) ≡ length xs - n
  length-drop zero xs = omega arith
  length-drop (suc n) [] = omega arith
  length-drop (suc n) (x ∷ xs) = omega (arith, length-drop n xs)

  pub length-replicate : (n : ℕ) (a : A) → length (replicate n a) ≡ n
  length-replicate zero a = refl
  length-replicate (suc n) a = ap suc (length-replicate n a)

  pub take-append_le : (n : ℕ) (xs ys : List A) → n ≤ length xs → take n (xs ++ ys) ≡ take n xs
  take-append_le zero xs ys h = refl
  take-append_le (suc n) [] ys h = absurd (omega arith)
  take-append_le (suc n) (x ∷ xs) ys h = ap (◌∷◌ x) (take-append_le n xs ys (omega arith))

  pub drop-append_le :
      (n : ℕ) (xs ys : List A) → n ≤ length xs → drop n (xs ++ ys) ≡ drop n xs ++ ys
  drop-append_le zero xs ys h = refl
  drop-append_le (suc n) [] ys h = absurd (omega arith)
  drop-append_le (suc n) (x ∷ xs) ys h = drop-append_le n xs ys (omega arith)

  pub take-append_length : (xs ys : List A) → take (length xs) (xs ++ ys) ≡ xs
  take-append_length [] ys = refl
  take-append_length (x ∷ xs) ys = ap (◌∷◌ x) (take-append_length xs ys)

  pub drop-append_length : (xs ys : List A) → drop (length xs) (xs ++ ys) ≡ ys
  drop-append_length [] ys = refl
  drop-append_length (x ∷ xs) ys = drop-append_length xs ys

  -- `std::vector::resize`: cut off, or filled up with a value.
  abbrev pub resize : ℕ → A → List A → List A
  resize zero a xs = []
  resize (suc n) a [] = a ∷ resize n a []
  resize (suc n) a (x ∷ xs) = x ∷ resize n a xs

  pub length-resize : (n : ℕ) (a : A) (xs : List A) → length (resize n a xs) ≡ n
  length-resize zero a xs = refl
  length-resize (suc n) a [] = ap suc (length-resize n a [])
  length-resize (suc n) a (x ∷ xs) = ap suc (length-resize n a xs)

  -- The bytes `new` stored over `old` from its start, as `memcpy` does into a large enough array.
  abbrev pub overwrite : List A → List A → List A
  overwrite [] old = old
  overwrite (x ∷ new) [] = []
  overwrite (x ∷ new) (y ∷ old) = x ∷ overwrite new old

  pub length-overwrite : (new old : List A) → length (overwrite new old) ≡ length old
  length-overwrite [] old = refl
  length-overwrite (x ∷ new) [] = refl
  length-overwrite (x ∷ new) (y ∷ old) = ap suc (length-overwrite new old)

  -- The same from position `i`.
  abbrev pub overwrite_at : ℕ → List A → List A → List A
  overwrite_at zero new old = overwrite new old
  overwrite_at (suc i) new [] = []
  overwrite_at (suc i) new (y ∷ old) = y ∷ overwrite_at i new old

  pub length-overwrite_at :
      (i : ℕ) (new old : List A) → length (overwrite_at i new old) ≡ length old
  length-overwrite_at zero new old = length-overwrite new old
  length-overwrite_at (suc i) new [] = refl
  length-overwrite_at (suc i) new (y ∷ old) = ap suc (length-overwrite_at i new old)

  pub take-overwrite :
      (new old : List A) → length new ≤ length old → take (length new) (overwrite new old) ≡ new
  take-overwrite [] old h = refl
  take-overwrite (x ∷ new) [] h = absurd (omega arith)
  take-overwrite (x ∷ new) (y ∷ old) h = ap (◌∷◌ x) (take-overwrite new old (omega arith))

  pub take-drop-overwrite_at :
      (i : ℕ) (new old : List A)
      → i + length new ≤ length old
      → take (length new) (drop i (overwrite_at i new old)) ≡ new
  take-drop-overwrite_at zero new old h = take-overwrite new old (omega arith)
  take-drop-overwrite_at (suc i) new [] h = absurd (omega arith)
  take-drop-overwrite_at (suc i) new (y ∷ old) h = take-drop-overwrite_at i new old (omega arith)

  pub drop-overwrite :
      (new old : List A) (k : ℕ) → length new ≤ k → drop k (overwrite new old) ≡ drop k old
  drop-overwrite [] old k h = refl
  drop-overwrite (x ∷ new) [] k h = refl
  drop-overwrite (x ∷ new) (y ∷ old) zero h = absurd (omega arith)
  drop-overwrite (x ∷ new) (y ∷ old) (suc k) h = drop-overwrite new old k (omega arith)

  pub get_or-overwrite_at_ne :
      (i : ℕ) (new old : List A) (j : ℕ) (d : A)
      → (j < i) ⊎ (i + length new ≤ j)
      → get_or (overwrite_at i new old) j d ≡ get_or old j d
  get_or-overwrite_at_ne zero [] old j d h = refl
  get_or-overwrite_at_ne zero (x ∷ new) [] j d h = refl
  get_or-overwrite_at_ne zero (x ∷ new) (y ∷ old) zero d h = absurd (omega arith)
  get_or-overwrite_at_ne zero (x ∷ new) (y ∷ old) (suc j) d h =
      get_or-overwrite_at_ne zero new old j d (inr (omega arith))
  get_or-overwrite_at_ne (suc i) new [] j d h = refl
  get_or-overwrite_at_ne (suc i) new (y ∷ old) zero d h = refl
  get_or-overwrite_at_ne (suc i) new (y ∷ old) (suc j) d h =
      get_or-overwrite_at_ne i new old j d (omega arith)

-- `std::map` keyed by a number: an association list. No operation of the program shows its order.
module _ {ℓ} {V : Type ℓ} where
  abbrev pub lookup : ℕ → List (ℕ × V) → Option V
  lookup k [] = none
  lookup k ((j, v) ∷ m) = if k == j then some v else lookup k m

  abbrev pub insert : ℕ → V → List (ℕ × V) → List (ℕ × V)
  insert k v [] = (k, v) ∷ []
  insert k v ((j, w) ∷ m) = if k == j then (k, v) ∷ m else (j, w) ∷ insert k v m

  pub lookup-insert :
      (k j : ℕ) (v : V) (m : List (ℕ × V))
      → lookup j (insert k v m) ≡ (if j == k then some v else lookup j m)
  lookup-insert k j v [] = refl
  lookup-insert k j v ((i, w) ∷ m) = ground (arith, lookup-insert k j v m)

  pub insert-insert :
      (k : ℕ) (v w : V) (m : List (ℕ × V)) → insert k w (insert k v m) ≡ insert k w m
  insert-insert k v w [] = ground arith
  insert-insert k v w ((i, u) ∷ m) = ground (arith, insert-insert k v w m)

abbrev pub All {ℓ κ} : {A : Type ℓ} → (A → Type κ) → List A → Type κ
All P [] = Unit
All P (x ∷ xs) = P x × All P xs

module _ {ℓ} {A : Type ℓ} where
  pub take-drop : (n : ℕ) (xs : List A) → take n xs ++ drop n xs ≡ xs
  take-drop zero xs = refl
  take-drop (suc n) [] = refl
  take-drop (suc n) (x ∷ xs) = ap (◌∷◌ x) (take-drop n xs)

  pub take-nil : (n : ℕ) → take {A = A} n [] ≡ []
  take-nil zero = refl
  take-nil (suc n) = refl

  -- A prefix in two parts.
  pub take-take-drop : (n k : ℕ) (xs : List A) → take n xs ++ take k (drop n xs) ≡ take (n + k) xs
  take-take-drop zero k xs = let e : k ≡ 0 + k = omega arith in ap (λ i. take i xs) e
  take-take-drop (suc n) k [] = take-nil k ∙ sym (take-nil (suc n + k))
  take-take-drop (suc n) k (x ∷ xs) =
      let e : suc (n + k) ≡ suc n + k = omega arith in
      ap (◌∷◌ x) (take-take-drop n k xs) ∙ ap (λ i. take i (x ∷ xs)) e
