-- ===== src/Target/Listener.antt =====
-- The clients of the server: targetApp/listener.c with targetApp/pscserver.h and pscopts.h. A pointer
-- to a `psc_client` is a number, and a `psc_client` that has been freed is not in `clients`.
pub mod Chain
pub mod Counts
pub mod Leaves
pub mod Loop
pub mod Steps
pub mod Walk
use pscdrv.Common.{
  ℕ, zero, suc, List, [], ◌∷◌, ◌++◌, length, Bool, true, false, not, ◌||◌, Option, none, some,
  lookup, insert, leb, ◌==◌, if◌then◌else◌, ◌+◌, ◌-◌, ◌%◌, ◌^◌,
}
use pscdrv.Wire.{Endian}
use pscdrv.Target.Socket.{Network, Sock}
use pscdrv.Target.Msg.{
  Ret, fine, errno, hung, overran, Got, nothing, message, psc_sendmsg, psc_recvmsg,
}

-- `struct psc_client`: `out` is what its connection does with the bytes that are sent.
pub record Client : Type 0 where
  pub prev : Option ℕ
  pub next : Option ℕ
  pub active : Bool
  pub sock : ℕ
  pub out : Sock

-- `struct psc_key`, with the state behind `conf->pvt` and the calls of `close` that have been made.
pub record Key (A : Type 0) : Type 0 where
  pub client_count : ℕ
  pub client_head : Option ℕ
  pub clients : List (ℕ × Client)
  pub closed : List ℕ
  pub pvt : A

-- `freed`: memory is used that has been freed, or that lies behind a buffer. `endless` is no outcome of the
-- code: the fuel ran out.
pub data Ran (A : Type 0) : Type 0 where
  ran : Key A → Ran A
  freed endless : Ran A

infixl 5 ◌>>=◌
abbrev pub ◌>>=◌ : {A : Type 0} → Ran A → (Key A → Ran A) → Ran A
ran k >>= f = f k
freed >>= f = freed
endless >>= f = endless

-- `psc_event`
pub data PscEvent : Type 0 where
  psc_conn psc_dis : PscEvent

-- The callbacks of `psc_config`; `recv` is always called, `conn` may be null.
pub record PscConfig (A : Type 0) : Type 0 where
  pub conn : Option (PscEvent → ℕ → Key A → Ran A)
  pub recv : ℕ → List ℕ → Key A → Ran A

abbrev pub psc_max_clients : ℕ
psc_max_clients = 4

abbrev pub psc_max_rx_msg_len : ℕ
psc_max_rx_msg_len = 1024

-- `free`
abbrev pub erase {ℓ} : {V : Type ℓ} → ℕ → List (ℕ × V) → List (ℕ × V)
erase c [] = []
erase c ((j, v) ∷ m) = if c == j then m else (j, v) ∷ erase c m

-- What a round of the loop of `psc_run` meets: `accept` fails, or there is a connection, where
-- `calloc`, `malloc` and `sys_thread_new` succeed or not.
pub data Accept : Type 0 where
  accept_error : Accept
  accepted : (sock fresh : ℕ) → (calloc malloc thread : Bool) → Accept

abbrev pub no_bytes_sent : Sock
no_bytes_sent = record { input = []; output = []; calls = 0 }

-- What a send of a message to one client leaves of it, and what it closes.
abbrev pub sent : Client → Ret × Sock → Client × List ℕ
sent c (fine, s) = (record c { out = s }, [])
sent c (errno e, s) = (record c { active = false; out = s }, c.sock ∷ [])
sent c (hung, s) = (record c { out = s }, [])
sent c (overran, s) = (record c { out = s }, [])

-- `psc_run` up to its loop: the key is set already, or an allocation or a socket call fails, or the
-- server is ready.
unfoldable pub psc_setup :
    {A : Type 0} → (key_set calloc mutex socket bind listen : Bool) → A → Option (Key A)
psc_setup key_set calloc mutex socket bind listen pvt =
    if key_set || not calloc || not mutex || not socket || not bind || not listen
    then none
    else some
        (record { client_count = 0; client_head = none; clients = []; closed = []; pvt = pvt })

module _ {A : Type 0} where
  -- The new client, linked in at the head: `prev` of the old head stays as it is.
  abbrev pub link : ℕ → ℕ → Key A → Key A
  link sock fresh k =
      let c : Client = record {
        prev = none;
        next = k.client_head;
        active = true;
        sock = sock;
        out = no_bytes_sent;
      } in
      record k {
        client_count = (k.client_count + 1) % 2 ^ 32;
        client_head = some fresh;
        clients = (fresh, c) ∷ k.clients;
      }

  -- The body of the loop of `psc_run` behind `accept`, where the thread of the new client does
  -- nothing before the client is linked in.
  unfoldable pub psc_accept : Accept → Key A → Key A
  psc_accept accept_error k = k
  psc_accept (accepted sock fresh calloc malloc thread) k =
      if leb psc_max_clients k.client_count || not calloc || not malloc
      then record k { closed = k.closed ++ sock ∷ [] }
      else if not thread
      then record k { closed = k.closed ++ sock ∷ [] }
      else link sock fresh k

  abbrev pub set_prev : Option ℕ → Option ℕ → Key A → Ran A
  set_prev none p k = ran k
  set_prev (some n) p k = elim (lookup n k.clients) [
    | none ↦ freed
    | some c ↦ ran (record k { clients = insert n (record c { prev = p }) k.clients })
  ]

  abbrev pub set_next : Option ℕ → Option ℕ → Key A → Ran A
  set_next none n k = ran (record k { client_head = n })
  set_next (some p) n k = elim (lookup p k.clients) [
    | none ↦ freed
    | some c ↦ ran (record k { clients = insert p (record c { next = n }) k.clients })
  ]

  abbrev pub count_down : Key A → Key A
  count_down k = record k { client_count = (k.client_count + 2 ^ 32 - 1) % 2 ^ 32 }

  -- "patch outselves out of the client list"
  unfoldable pub unlink : Client → Key A → Ran A
  unlink c k = set_prev c.next c.prev k >>= set_next c.prev c.next >>= λ k'. ran (count_down k')

  abbrev pub call_conn : PscConfig A → PscEvent → ℕ → Key A → Ran A
  call_conn conf event c k = elim conf.conn [ none ↦ ran k | some f ↦ f event c k ]

  abbrev pub close_and_free : ℕ → Key A → Ran A
  close_and_free c k = elim (lookup c k.clients) [
    | none ↦ freed
    | some client ↦
        ran (record k { closed = k.closed ++ client.sock ∷ []; clients = erase c k.clients })
  ]

  -- The end of `handle_client`.
  unfoldable pub leave : PscConfig A → ℕ → Key A → Ran A
  unfolding unlink
  leave conf c k = elim (lookup c k.clients) [
    | none ↦ freed
    | some client ↦ unlink client k >>= call_conn conf psc_dis c >>= close_and_free c
  ]

  abbrev pub after_msg : PscConfig A → (Key A → Sock → Ran A) → Key A → Got → Ran A
  after_msg conf loop k (nothing hung s) = endless
  after_msg conf loop k (nothing overran s) = freed
  after_msg conf loop k (nothing fine s) = ran k
  after_msg conf loop k (nothing (errno e) s) = ran k
  after_msg conf loop k (message fine msgid body s) = conf.recv msgid body k >>= λ k'. loop k' s
  after_msg conf loop k (message (errno e) msgid body s) = ran k
  after_msg conf loop k (message hung msgid body s) = endless
  after_msg conf loop k (message overran msgid body s) = freed

module _ {A : Type 0} (host : Endian) (nets : ℕ → Network) where
  unfoldable pub send_to : ℕ → List ℕ → ℕ → Client → Key A → Key A
  send_to msgid msg at c k =
      let (c', closes) = sent c (psc_sendmsg host (nets at) msgid msg c.out) in
      record k { clients = insert at c' k.clients; closed = k.closed ++ closes }

  -- The loop of `psc_send`.
  unfoldable pub send_walk : ℕ → ℕ → List ℕ → Option ℕ → Key A → Ran A
  unfolding send_to
  send_walk zero msgid msg at k = endless
  send_walk (suc fuel) msgid msg none k = ran k
  send_walk (suc fuel) msgid msg (some c) k = elim (lookup c k.clients) [
    | none ↦ freed
    | some client ↦
        send_walk fuel msgid msg client.next
          (if client.active then send_to msgid msg c client k else k)
  ]

  -- A walk visits no client twice.
  unfoldable pub psc_send : ℕ → List ℕ → Key A → Ran A
  unfolding send_walk
  psc_send msgid msg k = send_walk (suc (length k.clients)) msgid msg k.client_head k

  unfoldable pub psc_send_one : ℕ → ℕ → List ℕ → Key A → Ran A
  unfolding send_to
  psc_send_one c msgid msg k = elim (lookup c k.clients) [
    | none ↦ freed
    | some client ↦ ran (send_to msgid msg c client k)
  ]

module _ {A : Type 0} (host : Endian) (net : Network) (conf : PscConfig A) where
  -- The loop of `handle_client`. A message has eight bytes at least.
  unfoldable pub client_loop : ℕ → Key A → Sock → Ran A
  client_loop zero k s = endless
  client_loop (suc fuel) k s =
      after_msg conf (client_loop fuel) k (psc_recvmsg host net psc_max_rx_msg_len s)

  unfoldable pub handle_client : ℕ → Sock → Key A → Ran A
  unfolding client_loop leave
  handle_client c s k =
      call_conn conf psc_conn c k
      >>= (λ k'. client_loop (suc (length s.input)) k' s)
      >>= leave conf c
