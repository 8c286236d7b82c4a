-- ===== src/Common/Places.antt =====
-- The elements of lists, place by place.
use Prim.Native.Nat.{ℕ, zero, suc, ◌+◌, ◌-◌, ◌≤◌, ◌<◌}
use mathlib.Core.Path.{◌≡◌, refl, ap}
use mathlib.Core.List.{map, List, [], ◌∷◌, ◌++◌}
use native.Mathlib.Omega.{arith}
use pscdrv.Common.Lists.{length, take, drop, replicate, get_or, overwrite, overwrite_at}

module _ {ℓ} {A : Type ℓ} where
  pub take_all : (n : ℕ) (xs : List A) → length xs ≤ n → take n xs ≡ xs
  take_all zero [] h = refl
  take_all zero (x ∷ xs) h = absurd (omega arith)
  take_all (suc n) [] h = refl
  take_all (suc n) (x ∷ xs) h = ap (◌∷◌ x) (take_all n xs (omega arith))

  pub take-append_ge :
      (n : ℕ) (xs ys : List A) → length xs ≤ n → take n (xs ++ ys) ≡ xs ++ take (n - length xs) ys
  take-append_ge n [] ys h = let e : n - 0 ≡ n = omega arith in rw e
  take-append_ge zero (x ∷ xs) ys h = absurd (omega arith)
  take-append_ge (suc n) (x ∷ xs) ys h =
      let e : suc n - suc (length xs) ≡ n - length xs = omega arith in
      rw e (ap (◌∷◌ x) (take-append_ge n xs ys (omega arith)))

  pub overwrite-append :
      (xs ys old : List A)
      → length xs ≤ length old
      → overwrite (xs ++ ys) old ≡ xs ++ overwrite ys (drop (length xs) old)
  overwrite-append [] ys old h = refl
  overwrite-append (x ∷ xs) ys [] h = absurd (omega arith)
  overwrite-append (x ∷ xs) ys (y ∷ old) h = ap (◌∷◌ x) (overwrite-append xs ys old (omega arith))

  pub overwrite-whole : (xs old : List A) → length old ≡ length xs → overwrite xs old ≡ xs
  overwrite-whole [] [] h = refl
  overwrite-whole [] (y ∷ old) h = absurd (omega arith)
  overwrite-whole (x ∷ xs) [] h = absurd (omega arith)
  overwrite-whole (x ∷ xs) (y ∷ old) h = ap (◌∷◌ x) (overwrite-whole xs old (omega arith))

  pub take-overwrite_long :
      (n : ℕ) (new old : List A)
      → length new ≤ n
      → n ≤ length old
      → take n (overwrite new old) ≡ new ++ take (n - length new) (drop (length new) old)
  take-overwrite_long n [] old h k = let e : n - 0 ≡ n = omega arith in rw e
  take-overwrite_long n (x ∷ new) [] h k = absurd (omega arith)
  take-overwrite_long zero (x ∷ new) (y ∷ old) h k = absurd (omega arith)
  take-overwrite_long (suc n) (x ∷ new) (y ∷ old) h k =
      let e : suc n - suc (length new) ≡ n - length new = omega arith in
      rw e (ap (◌∷◌ x) (take-overwrite_long n new old (omega arith) (omega arith)))

  -- Within the list the default does not matter.
  pub get_or_within :
      (xs : List A) (i : ℕ) (d e : A) → i < length xs → get_or xs i d ≡ get_or xs i e
  get_or_within [] i d e h = absurd (omega arith)
  get_or_within (x ∷ xs) zero d e h = refl
  get_or_within (x ∷ xs) (suc i) d e h = get_or_within xs i d e (omega arith)

  pub drop-get_or :
      (j : ℕ) (xs : List A) (d : A) → j < length xs → drop j xs ≡ get_or xs j d ∷ drop (suc j) xs
  drop-get_or j [] d h = absurd (omega arith)
  drop-get_or zero (x ∷ xs) d h = refl
  drop-get_or (suc j) (x ∷ xs) d h = drop-get_or j xs d (omega arith)

  pub get_or-take : (i n : ℕ) (xs : List A) (d : A) → i < n → get_or (take n xs) i d ≡ get_or xs i d
  get_or-take i zero xs d h = absurd (omega arith)
  get_or-take i (suc n) [] d h = refl
  get_or-take zero (suc n) (x ∷ xs) d h = refl
  get_or-take (suc i) (suc n) (x ∷ xs) d h = get_or-take i n xs d (omega arith)

  pub get_or-append_lt :
      (xs ys : List A) (i : ℕ) (d : A) → i < length xs → get_or (xs ++ ys) i d ≡ get_or xs i d
  get_or-append_lt [] ys i d h = absurd (omega arith)
  get_or-append_lt (x ∷ xs) ys zero d h = refl
  get_or-append_lt (x ∷ xs) ys (suc i) d h = get_or-append_lt xs ys i d (omega arith)

  pub get_or-append_ge :
      (xs ys : List A) (i : ℕ) (d : A)
      → length xs ≤ i
      → get_or (xs ++ ys) i d ≡ get_or ys (i - length xs) d
  get_or-append_ge [] ys i d h = let e : i - 0 ≡ i = omega arith in rw e refl
  get_or-append_ge (x ∷ xs) ys zero d h = absurd (omega arith)
  get_or-append_ge (x ∷ xs) ys (suc i) d h =
      let e : suc i - suc (length xs) ≡ i - length xs = omega arith in
      rw e (get_or-append_ge xs ys i d (omega arith))

  pub get_or-replicate : (n i : ℕ) (a d : A) → i < n → get_or (replicate n a) i d ≡ a
  get_or-replicate zero i a d h = absurd (omega arith)
  get_or-replicate (suc n) zero a d h = refl
  get_or-replicate (suc n) (suc i) a d h = get_or-replicate n i a d (omega arith)

  pub get_or-overwrite :
      (new old : List A) (k : ℕ) (d : A)
      → k < length new
      → length new ≤ length old
      → get_or (overwrite new old) k d ≡ get_or new k d
  get_or-overwrite [] old k d h l = absurd (omega arith)
  get_or-overwrite (x ∷ new) [] k d h l = absurd (omega arith)
  get_or-overwrite (x ∷ new) (y ∷ old) zero d h l = refl
  get_or-overwrite (x ∷ new) (y ∷ old) (suc k) d h l =
      get_or-overwrite new old k d (omega arith) (omega arith)

  pub get_or-overwrite_at :
      (i k : ℕ) (new old : List A) (d : A)
      → i ≤ k
      → k < i + length new
      → i + length new ≤ length old
      → get_or (overwrite_at i new old) k d ≡ get_or new (k - i) d
  get_or-overwrite_at zero k new old d h l m =
      let e : k - 0 ≡ k = omega arith in
      rw e (get_or-overwrite new old k d (omega arith) (omega arith))
  get_or-overwrite_at (suc i) k new [] d h l m = absurd (omega arith)
  get_or-overwrite_at (suc i) zero new (y ∷ old) d h l m = absurd (omega arith)
  get_or-overwrite_at (suc i) (suc k) new (y ∷ old) d h l m =
      let e : suc k - suc i ≡ k - i = omega arith in
      rw e (get_or-overwrite_at i k new old d (omega arith) (omega arith) (omega arith))

module _ {ℓ κ} {A : Type ℓ} {B : Type κ} where
  pub length-map : (f : A → B) (xs : List A) → length (map f xs) ≡ length xs
  length-map f [] = refl
  length-map f (x ∷ xs) = ap suc (length-map f xs)
