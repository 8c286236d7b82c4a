-- ===== src/CbList.antt =====
-- `CBList` of coreApp/src/psc/cblist.h: callbacks as pairs of a user pointer and a function pointer,
-- both numbers here. Pointers are only stored, compared and called.
pub mod Laws
use pscdrv.Common.{ℕ, List, [], ◌∷◌, ◌++◌, Bool, false, ◌&&◌, ◌||◌, ◌==◌, if◌then◌else◌}

pub record Callback : Type 0 where
  pub user : ℕ
  pub func : ℕ

abbrev pub same : Callback → Callback → Bool
same a b = a.user == b.user && a.func == b.func

unfoldable pub add : ℕ → ℕ → List Callback → List Callback
add fn user l = l ++ (record { user = user; func = fn } ∷ [])

-- `std::list::remove` takes out every equal entry.
unfoldable pub del : ℕ → ℕ → List Callback → List Callback
del fn user [] = []
del fn user (e ∷ l) =
    let rest = del fn user l in
    if same e (record { user = user; func = fn }) then rest else e ∷ rest

-- A call changes the world and returns, or throws a `std::exception`.
pub data Call (W : Type 0) : Type 0 where
  returned : W → Call W
  threw : W → Call W

-- The `catch` of `operator()` logs and goes on.
abbrev pub caught : {W : Type 0} → Call W → W
caught (returned w) = w
caught (threw w) = w

-- `operator()`
unfoldable pub invoke : {W T : Type 0} → (Callback → T → W → Call W) → List Callback → T → W → W
invoke call [] obj w = w
invoke call (e ∷ l) obj w = invoke call l obj (caught (call e obj w))

-- Is the callback in the list?
abbrev pub holds : List Callback → Callback → Bool
holds [] c = false
holds (e ∷ l) c = same e c || holds l c
