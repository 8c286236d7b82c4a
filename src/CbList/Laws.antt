-- ===== src/CbList/Laws.antt =====
-- What the list of callbacks holds after each operation, and that a throw stops no later callback.
use mathlib.Core.List.{append-nil, append_assoc}
use pscdrv.Common.{
  ℕ, List, [], ◌∷◌, ◌++◌, Bool, not, ◌&&◌, ◌||◌, ◌≡◌, refl, arith, sym, ◌∙◌, ap, if◌then◌else◌,
}
use pscdrv.CbList.{Callback, Call, returned, threw, caught, same, add, del, invoke, holds}

holds-add :
    (fn user : ℕ) (l : List Callback) (c : Callback)
    → holds (add fn user l) c ≡ (same (record { user = user; func = fn }) c || holds l c)
unfolding add
holds-add fn user [] c = refl
holds-add fn user (e ∷ l) c = ground (arith, holds-add fn user l c)

holds-del :
    (fn user : ℕ) (l : List Callback) (c : Callback)
    → holds (del fn user l) c ≡ (not (same c (record { user = user; func = fn })) && holds l c)
unfolding del
holds-del fn user [] c = ground arith
holds-del fn user (e ∷ l) c = ground (arith, holds-del fn user l c)

-- After `add` the list holds the new callback and what it held; after `del` it holds what it held
-- but that callback, however often that had been added.
pub holds-add-del :
    (fn user : ℕ) (l : List Callback) (c : Callback)
    → (holds (add fn user l) c ≡ (same (record { user = user; func = fn }) c || holds l c))
      × (holds (del fn user l) c ≡ (not (same c (record { user = user; func = fn })) && holds l c))
holds-add-del fn user l c = (holds-add fn user l c, holds-del fn user l c)

-- A callback that notes its call, and then throws or not.
abbrev pub noting : (Callback → Bool) → Callback → ℕ → List Callback → Call (List Callback)
noting throws e obj w = if throws e then threw (w ++ (e ∷ [])) else returned (w ++ (e ∷ []))

caught-noting :
    (throws : Callback → Bool) (e : Callback) (obj : ℕ) (w : List Callback)
    → caught (noting throws e obj w) ≡ w ++ (e ∷ [])
caught-noting throws e obj w = ground arith

-- Every callback of the list is called once, in the order of the list, whichever of them throw.
invoke-all :
    (throws : Callback → Bool) (l : List Callback) (obj : ℕ) (w : List Callback)
    → invoke (noting throws) l obj w ≡ w ++ l
unfolding invoke
invoke-all throws [] obj w = sym (append-nil w)
invoke-all throws (e ∷ l) obj w =
    invoke-all throws l obj (caught (noting throws e obj w))
    ∙ ap (λ v. v ++ l) (caught-noting throws e obj w)
    ∙ append_assoc w (e ∷ []) l
