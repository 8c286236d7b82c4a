-- ===== src/Target/Listener/Steps.antt =====
-- What happens to the clients of targetApp/listener.c, as steps: each holds `sendguard` where the
-- code does.
use pscdrv.Common.{
  ℕ, zero, suc, List, length, Bool, true, false, Option, none, some, lookup, if◌then◌else◌, ◌≡◌,
  refl, arith, Option-cases, inl, inr, subst,
}
use pscdrv.Wire.{Endian}
use pscdrv.Target.Socket.{Network}
use pscdrv.Target.Msg.{psc_sendmsg}
use pscdrv.Target.Listener.{
  Client, Key, Ran, ran, freed, endless, PscConfig, psc_dis, call_conn, leave, psc_accept, Accept,
  sent, send_to, send_walk, psc_send, psc_send_one, psc_setup,
}
use pscdrv.Target.Listener.Counts.{
  IsCounted, length-insert, psc_accept-IsCounted, SameCount, SameCount-trans, Counted,
  leave-Counted,
}

module _ {A : Type 0} (host : Endian) (nets : ℕ → Network) (msgid : ℕ) (msg : List ℕ) where
  send_to-SameCount :
      (x : ℕ) (c : Client) (k : Key A)
      → lookup x k.clients ≡ some c
      → SameCount k (ran (send_to host nets msgid msg x c k))
  unfolding send_to
  send_to-SameCount x c k h =
      (refl, length-insert x (sent c (psc_sendmsg host (nets x) msgid msg c.out)).0 c k.clients h)

  visit-SameCount :
      (x : ℕ) (c : Client) (k : Key A) (b : Bool)
      → lookup x k.clients ≡ some c
      → SameCount k (ran (if b then send_to host nets msgid msg x c k else k))
  visit-SameCount x c k true h = send_to-SameCount x c k h
  visit-SameCount x c k false h = (refl, refl)

  send_walk-SameCount :
      (fuel : ℕ) (p : Option ℕ) (k : Key A) → SameCount k (send_walk host nets fuel msgid msg p k)
  unfolding send_walk
  send_walk-SameCount zero p k = tt
  send_walk-SameCount (suc fuel) none k = (refl, refl)
  send_walk-SameCount (suc fuel) (some x) k = elim (Option-cases (lookup x k.clients)) [
    | inl e ↦ rw (send_walk, e) tt
    | inr (c, e) ↦
        rw (send_walk, e)
          (SameCount-trans k (if c.active then send_to host nets msgid msg x c k else k)
            (send_walk host nets fuel msgid msg c.next
              (if c.active then send_to host nets msgid msg x c k else k))
            (visit-SameCount x c k c.active e).0 (visit-SameCount x c k c.active e).1
            (send_walk-SameCount fuel c.next _))
  ]

  psc_send_one-SameCount : (x : ℕ) (k : Key A) → SameCount k (psc_send_one host nets x msgid msg k)
  unfolding psc_send_one
  psc_send_one-SameCount x k = elim (Option-cases (lookup x k.clients)) [
    | inl e ↦ rw (psc_send_one, e) tt
    | inr (c, e) ↦ rw (psc_send_one, e) (send_to-SameCount x c k e)
  ]

Counted-SameCount : {A : Type 0} (k : Key A) (r : Ran A) → IsCounted k → SameCount k r → Counted r
Counted-SameCount k (ran k') v h = record {
  counted = omega (arith, v.counted, h.0, h.1);
  bounded = omega (arith, v.bounded, h.0);
}
Counted-SameCount k freed v h = tt
Counted-SameCount k endless v h = tt

psc_setup-IsCounted :
    {A : Type 0} (pvt : A) (key_set calloc mutex socket bind listen : Bool) (k : Key A)
    → psc_setup key_set calloc mutex socket bind listen pvt ≡ some k
    → IsCounted k
unfolding psc_setup
psc_setup-IsCounted pvt key_set calloc mutex socket bind listen k h = ground arith

module _ {A : Type 0} (host : Endian) (nets : ℕ → Network) (conf : PscConfig A) where
  -- A round of the loop of `psc_run`, the end of a client, and the two ways to send.
  pub data Step (k : Key A) : Key A → Type 0 where
    accepts : (a : Accept) → Step k (psc_accept a k)
    leaves : {k' : Key A} (x : ℕ) → leave conf x k ≡ ran k' → Step k k'
    sends :
        {k' : Key A} (msgid : ℕ) (msg : List ℕ)
        → psc_send host nets msgid msg k ≡ ran k'
        → Step k k'
    sends_one :
        {k' : Key A} (x msgid : ℕ) (msg : List ℕ)
        → psc_send_one host nets x msgid msg k ≡ ran k'
        → Step k k'

  pub data Reach (k : Key A) : Key A → Type 0 where
    here : Reach k k
    further : {k' k'' : Key A} → Reach k k' → Step k' k'' → Reach k k''

  Counted-ran : (r : Ran A) (k : Key A) → r ≡ ran k → Counted r → IsCounted k
  Counted-ran r k e h = subst Counted e h

  module _ (quiet : (x : ℕ) (k : Key A) → call_conn conf psc_dis x k ≡ ran k) where
    Step-IsCounted : {k k' : Key A} → Step k k' → IsCounted k → IsCounted k'
    unfolding psc_send
    Step-IsCounted {k} (accepts a) v = psc_accept-IsCounted a k v
    Step-IsCounted {k} {k'} (leaves x e) v =
        Counted-ran (leave conf x k) k' e (leave-Counted conf x k (quiet x) v)
    Step-IsCounted {k} {k'} (sends msgid msg e) v =
        Counted-ran (psc_send host nets msgid msg k) k' e (
          Counted-SameCount k (psc_send host nets msgid msg k) v
            (send_walk-SameCount host nets msgid msg (suc (length k.clients)) k.client_head k))
    Step-IsCounted {k} {k'} (sends_one x msgid msg e) v =
        Counted-ran (psc_send_one host nets x msgid msg k) k' e (
          Counted-SameCount k (psc_send_one host nets x msgid msg k) v
            (psc_send_one-SameCount host nets msgid msg x k))

    -- From the key that `psc_run` sets up, through any sequence of connections, ends of clients and
    -- messages sent that use no freed memory, where no callback acts at the end of a client: the count
    -- is the number of clients that are in memory, and that is four at most.
    pub Reach-IsCounted :
        {k k' : Key A} (pvt : A) (key_set calloc mutex socket bind listen : Bool)
        → psc_setup key_set calloc mutex socket bind listen pvt ≡ some k
        → Reach k k'
        → IsCounted k'
    Reach-IsCounted pvt key_set calloc mutex socket bind listen h here =
        psc_setup-IsCounted pvt key_set calloc mutex socket bind listen _ h
    Reach-IsCounted pvt key_set calloc mutex socket bind listen h (further r s) =
        Step-IsCounted s (Reach-IsCounted pvt key_set calloc mutex socket bind listen h r)
