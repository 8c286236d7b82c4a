-- ===== src/Registry/Start.antt =====
-- What `startAll` leaves: every driver runs; or, after a constructor has thrown, it uses freed memory.
use pscdrv.Common.{
  ℕ, [], ◌∷◌, ◌++◌, map, Bool, true, false, none, some, ◌≡◌, refl, All, lookup, arith, ◌==◌, ltb,
  if◌then◌else◌, Bool-cases, inl, inr,
}
use pscdrv.Outcome.{ok, faulted}
use pscdrv.Psc.State.{Env, Psc}
use pscdrv.Block.{scan_status}
use pscdrv.Recv.{idle_decoder}
use pscdrv.Psc.Link.{Attempt, new_session}
use pscdrv.Psc.Link
use pscdrv.Psc.Live.{IsLive}
use pscdrv.Udp.{Udp}
use pscdrv.Udp
use pscdrv.Registry.{
  Driver, tcp, udp, freed, Registry, enter, part_failed, create_psc, get_psc_base, start_one,
  start_all,
}

-- A driver as its constructor leaves it, with whatever blocks records and the shell have made.
abbrev pub IsFresh : ℕ × Driver → Type 0
IsFresh (name, tcp p) = (p.connected ≡ false) × (p.session ≡ none) × (p.timer_active ≡ false)
IsFresh (name, udp u) = u.connected ≡ false
IsFresh (name, freed) = ⊥

abbrev pub IsRunning : ℕ × Driver → Type 0
IsRunning (name, tcp p) = IsLive p
IsRunning (name, udp u) = u.connected ≡ true
IsRunning (name, freed) = ⊥

-- libevent allocates every session and adds every event.
abbrev pub Answers : (ℕ → Attempt × Bool) → Type 0
Answers answers = (name : ℕ) → ((answers name).0.allocated ≡ true) × ((answers name).1 ≡ true)

connect-IsRunning :
    (env : Env) (att : Attempt) (p : Psc)
    → (p.connected ≡ false) × (p.session ≡ none) × (p.timer_active ≡ false)
    → att.allocated ≡ true
    → (q : Psc) × (Link.connect env att p ≡ ok q) × IsLive q
unfolding Link.connect
connect-IsRunning env att p fresh a = elim (Bool-cases att.started) [
  | inl s ↦
      let session = new_session env att.timeouts_set p.mask in
      (
        record p {
          dec = idle_decoder;
          session = some session;
          message = "Connecting...";
          log = p.log ++ (scan_status ∷ []);
        },
        ground arith,
        inr (session, refl, fresh.2, inl (refl, refl)),
      )
  | inr s ↦ (
    record p {
      dec = idle_decoder;
      timer_active = true;
      message = "Failed to initiate connection.";
      log = p.log ++ (scan_status ∷ []);
    },
    ground arith,
    inl (fresh.1, refl, fresh.0),
  )
]

start_one-IsRunning :
    (env : Env) (att : Attempt) (added : Bool) (name : ℕ) (d : Driver)
    → IsFresh (name, d)
    → att.allocated ≡ true
    → added ≡ true
    → (d' : Driver) × (start_one env att added d ≡ ok d') × IsRunning (name, d')
unfolding start_one Udp.connect
start_one-IsRunning env att added name (tcp p) fresh a y =
    let (q, e, live) = connect-IsRunning env att p fresh a in (tcp q, rw e refl, live)
start_one-IsRunning env att added name (udp u) fresh a y =
    (udp (record u { connected = true }), rw y refl, refl)
start_one-IsRunning env att added name freed fresh a y = absurd fresh

-- `startAll` on drivers that are not yet started, when libevent allocates every session and adds every
-- event, returns with every driver running under its name: a TCP driver with a session or a retry
-- timer, a UDP driver connected.
start_all-IsRunning :
    (env : Env) (answers : ℕ → Attempt × Bool) (reg : Registry)
    → Answers answers
    → All IsFresh reg
    → (reg' : Registry) × (start_all env answers reg ≡ ok reg')
      × All IsRunning reg'
      × (map (λ e. e.0) reg' ≡ map (λ e. e.0) reg)
unfolding start_all
start_all-IsRunning env answers [] good fresh = ([], refl, tt, refl)
start_all-IsRunning env answers ((name, d) ∷ reg) good fresh =
    let (d', e, run) =
      start_one-IsRunning env (answers name).0 (answers name).1 name d fresh.0 (good name).0
        (good name).1 in
    let (reg', f, runs, names) = start_all-IsRunning env answers reg good fresh.1 in
    ((name, d') ∷ reg', ground (arith, e, f), (run, runs), rw names refl)

lookup-enter :
    (k j : ℕ) (d : Driver) (reg : Registry)
    → lookup j (enter k d reg) ≡ (if j == k then some d else lookup j reg)
lookup-enter k j d [] = refl
lookup-enter k j d ((i, e) ∷ reg) = ground (arith, lookup-enter k j d reg)

start_all_first :
    (env : Env) (answers : ℕ → Attempt × Bool) (name : ℕ) (reg : Registry)
    → start_all env answers ((name, freed) ∷ reg) ≡ faulted
unfolding start_all start_one
start_all_first env answers name reg = refl

start_all_later :
    (env : Env) (answers : ℕ → Attempt × Bool) (name : ℕ) (d : Driver) (reg : Registry)
    → Answers answers
    → IsFresh (name, d)
    → start_all env answers reg ≡ faulted
    → start_all env answers ((name, d) ∷ reg) ≡ faulted
unfolding start_all
start_all_later env answers name d reg good fresh e =
    let (d', f, _) =
      start_one-IsRunning env (answers name).0 (answers name).1 name d fresh (good name).0
        (good name).1 in
    ground (arith, f, e)

start_all-freed :
    (env : Env) (answers : ℕ → Attempt × Bool) (name : ℕ) (reg : Registry)
    → Answers answers
    → All IsFresh reg
    → start_all env answers (enter name freed reg) ≡ faulted
start_all-freed env answers name [] good fresh = start_all_first env answers name []
start_all-freed env answers name ((k, d) ∷ reg) good fresh = elim (Bool-cases (name == k)) [
  | inl e ↦ rw e (start_all_first env answers name reg)
  | inr n ↦ elim (Bool-cases (ltb name k)) [
    | inl e ↦ rw (n, e) (start_all_first env answers name ((k, d) ∷ reg))
    | inr e ↦
        rw (n, e)
          (start_all_later env answers k d (enter name freed reg) good fresh.0
            (start_all-freed env answers name reg good fresh.1))
  ]
]

-- When the constructor of a TCP driver throws after its base class has entered it into the map, its
-- name still finds the freed object, and `startAll` uses it, whichever drivers there are besides.
create_psc-start_all :
    (env : Env) (answers : ℕ → Attempt × Bool) (name mask : ℕ) (reg : Registry)
    → Answers answers
    → All IsFresh reg
    → let reg' = create_psc name mask part_failed reg in
      (get_psc_base name reg' ≡ some freed) × (start_all env answers reg' ≡ faulted)
unfolding create_psc
create_psc-start_all env answers name mask reg good fresh = (
  ground (arith, lookup-enter name name freed reg),
  start_all-freed env answers name reg good fresh,
)
