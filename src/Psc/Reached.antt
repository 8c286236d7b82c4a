-- ===== src/Psc/Reached.antt =====
-- Every history of a PSC from its first `connect` on: the callbacks, the calls of the records, failed
-- allocations and `stop` (coreApp/src/psc.cpp, coreApp/src/pscwrap.cpp).
use pscdrv.Common.{Bool, true, false, not, none, ◌≡◌, ◌||◌}
use pscdrv.Outcome.{ok}
use pscdrv.Block.{BlockMap}
use pscdrv.Psc.State.{Env, Psc}
use pscdrv.Psc.Link.{Attempt, connect, stop}
use pscdrv.Psc.Live.{IsLive, Happening, timer, event, arrive, force, queue, flush, handle}

-- The session cannot be allocated when the timer fires.
abbrev pub is_lost : Happening → Bool
is_lost (timer att) = not att.allocated
is_lost (event ev text) = false
is_lost (arrive ys) = false
is_lost force = false
is_lost (queue junk fits id buf) = false
is_lost (flush moved) = false

-- The timer fires only while it runs; everything else may come at any time.
abbrev pub MayCome : Happening → Psc → Type 0
MayCome (timer att) p = p.timer_active ≡ true
MayCome (event ev text) p = Unit
MayCome (arrive ys) p = Unit
MayCome force p = Unit
MayCome (queue junk fits id buf) p = Unit
MayCome (flush moved) p = Unit

-- The states that a PSC comes through after a `connect` that returns, on whatever fields it had, up to
-- an assertion that fails or a null pointer that is used. The flag tells that an allocation of a
-- session has failed since, or that `stop` was called. Between the calls the blocks change in any way.
pub data Reach (env : Env) : Bool → Psc → Type 0 where
  started : (p : Psc) {q : Psc} (att : Attempt) → connect env att p ≡ ok q → Reach env false q
  then :
      {gone : Bool} {p q : Psc} (h : Happening)
      → Reach env gone p
      → MayCome h p
      → handle env h p ≡ ok q
      → Reach env (gone || is_lost h) q
  changed :
      {gone : Bool} (p : Psc) (sends receives : BlockMap)
      → Reach env gone p
      → Reach env gone (record p { send_blocks = sends; recv_blocks = receives })
  stopped : {gone : Bool} {p q : Psc} → Reach env gone p → stop p ≡ ok q → Reach env true q

-- There is no session, and no timer to make one.
abbrev pub IsGone : Psc → Type 0
IsGone p = (p.session ≡ none) × (p.timer_active ≡ false)

abbrev pub Fate : Bool → Psc → Type 0
Fate false p = IsLive p
Fate true p = IsGone p
