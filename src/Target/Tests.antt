-- ===== src/Target/Tests.antt =====
-- The theorems on the embedded server at concrete states.
use pscdrv.Common.{
  ℕ, [], ◌∷◌, ◌++◌, length, true, false, none, some, lookup, ◌≡◌, refl, arith, map, ◌+◌, ◌-◌, ◌%◌,
  ◌^◌, ◌==◌, suc, replicate, if◌then◌else◌, Option,
}
use pscdrv.Wire.{little, big}
use pscdrv.Block.{Block}
use pscdrv.Outcome.{ok}
use pscdrv.Recv.{Rx, receive, idle_decoder}
use pscdrv.Recv.Frames.{Message, encode, deliver_all}
use pscdrv.Psc.State.{Env, Psc, Session, min_max_buf_size}
use pscdrv.Psc.Send.{flush_send}
use pscdrv.Psc.Queue.{Queued}
use pscdrv.Target.Socket.{Network, Sock, eio, fails, moves}
use pscdrv.Target.Msg.{fine, overran, message, psc_sendmsg, psc_recvmsg, psc_recvskip}
use pscdrv.Target.Msg.Sends.{Puts, psc_sendmsg-encode}
use pscdrv.Target.Msg.Receives.{FlowsFrom, reading}
use pscdrv.Target.Msg.Messages.{psc_recvmsg-flowing}
use pscdrv.Target.Msg.Skips.{psc_recvskip-too_many}
use pscdrv.Target.Listener.{
  Client, Key, ran, freed, PscConfig, ◌>>=◌, Accept, accepted, psc_accept, psc_setup, psc_send,
  leave, client_loop,
}
use pscdrv.Target.Listener.Chain.{Chain}
use pscdrv.Target.Listener.Walk.{after_all, psc_send-Chain}
use pscdrv.Target.Listener.Leaves.{IsMap, leave-Chain, leave-leave-freed}
use pscdrv.Target.Listener.Counts.{IsCounted}
use pscdrv.Target.Listener.Steps.{Reach, here, further, accepts, Reach-IsCounted}
use pscdrv.Target.App.{App, started, conf}
use pscdrv.Target.Exchange.{echo, IsQuestion, flush_send-echo}

-- Three bytes at most pass at each call.
abbrev by_threes : Network
by_threes n = moves 3

abbrev hello : Message
hello = record { id = 7; body = 5 ∷ 6 ∷ [] }

abbrev fresh_sock : Sock
fresh_sock = reading [] [] 0

psc_sendmsg-encode_example :
    Puts (encode hello) fresh_sock (psc_sendmsg big by_threes 7 (5 ∷ 6 ∷ []) fresh_sock)
psc_sendmsg-encode_example =
    psc_sendmsg-encode big by_threes hello fresh_sock (omega arith) (omega arith)

psc_recvmsg-flowing_example :
    (c' : ℕ) × (psc_recvmsg little by_threes 1 (reading (encode hello ++ (b'P' ∷ [])) [] 0)
      ≡ message fine 7 (5 ∷ []) (reading (b'P' ∷ []) [] c'))
psc_recvmsg-flowing_example =
    psc_recvmsg-flowing little by_threes (λ n. (2, refl)) 1 hello (b'P' ∷ []) [] 0 (omega arith)
      (omega arith)

-- The first call gets one byte, the second fails.
abbrev cut : Network
cut n = if n == 0 then moves 1 else if n == 1 then fails eio else moves 200

cut-FlowsFrom : FlowsFrom 2 cut
cut-FlowsFrom n h = (199, ground arith)

psc_recvskip-too_many_example :
    (c' : ℕ) × (psc_recvskip cut 130 (reading (1 ∷ (replicate 130 0 ++ (2 ∷ []))) [] 0)
      ≡ (overran, reading (2 ∷ []) [] c'))
psc_recvskip-too_many_example =
    psc_recvskip-too_many cut eio (1 ∷ []) (replicate 130 0) (2 ∷ []) [] 0 (omega arith)
      (omega arith) (omega arith) refl refl cut-FlowsFrom

abbrev quiet : PscConfig (Unit {0})
quiet = record { conn = none; recv = λ id body k. ran k }

abbrev client : Option ℕ → Client
client next = record { prev = none; next = next; active = true; sock = 5; out = fresh_sock }

abbrev two_clients : Key (Unit {0})
two_clients = record {
  client_count = 2;
  client_head = some 2;
  clients = (2, client (some 1)) ∷ (1, client none) ∷ [];
  closed = [];
  pvt = tt;
}

two_clients-Chain : Chain two_clients.clients (some 2) (2 ∷ 1 ∷ [])
two_clients-Chain =
    (client (some 1), refl, refl, refl, refl, (client none, refl, refl, refl, refl, refl))

two_clients-IsMap : IsMap two_clients.clients
two_clients-IsMap = (refl, (refl, tt))

psc_send-Chain_example :
    (k' : Key (Unit {0})) × (psc_send little (λ x. by_threes) 7 (5 ∷ []) two_clients ≡ ran k')
    × ((y : ℕ)
        → lookup y k'.clients
          ≡ after_all little
              (λ x. by_threes)
              7
              (5 ∷ [])
              (2 ∷ 1 ∷ [])
              y
              (lookup y two_clients.clients))
    × (k'.client_head ≡ some 2)
    × (k'.client_count ≡ 2)
psc_send-Chain_example =
    psc_send-Chain little (λ x. by_threes) 7 (5 ∷ []) two_clients (2 ∷ 1 ∷ []) two_clients-Chain

leave-Chain_example :
    (k' : Key (Unit {0})) × (leave quiet 1 two_clients ≡ ran k')
    × Chain k'.clients k'.client_head []
    × ((y : ℕ) → (y == 1) ≡ false → lookup y k'.clients ≡ lookup y two_clients.clients)
    × (lookup 1 k'.clients ≡ none)
    × (k'.client_count ≡ (2 + 2 ^ 32 - 1) % 2 ^ 32)
leave-Chain_example =
    leave-Chain quiet 1 [] two_clients (λ k. refl) two_clients-IsMap (2 ∷ []) two_clients-Chain

leave-leave-freed_example : (leave quiet 1 two_clients >>= leave quiet 2) ≡ freed
leave-leave-freed_example =
    leave-leave-freed quiet 1 [] two_clients (λ k. refl) two_clients-IsMap [] 2 two_clients-Chain

abbrev no_clients : Key (Unit {0})
no_clients = record { client_count = 0; client_head = none; clients = []; closed = []; pvt = tt }

abbrev a_client : Accept
a_client = accepted 5 1 true true true

one_accepted : Reach little (λ x. by_threes) quiet no_clients (psc_accept a_client no_clients)
one_accepted = further here (accepts a_client)

set_up : psc_setup false true true true true true tt ≡ some no_clients
unfolding psc_setup
set_up = refl

Reach-IsCounted_example : IsCounted (psc_accept a_client no_clients)
Reach-IsCounted_example =
    Reach-IsCounted little (λ x. by_threes) quiet (λ x k. refl) tt false true true true true true
      set_up one_accepted

-- The driver with one message that waits, and the server with one client.
abbrev env : Env
env = record { host = little; clock = λ n. some n; inactivity_time = 5; max_send_buffer = 0 }

abbrev session : Session
session = record {
  input = [];
  output = [];
  enabled = true;
  low = 8;
  high = min_max_buf_size;
  timeout_read = some 5;
  timeout_write = some 5;
}

abbrev block_7 : Block
block_7 = record { code = 7; data_bytes = []; queued = true; listeners = []; count = 1; rxtime = 0 }

abbrev driver : Psc
driver = record {
  mask = 3;
  connected = true;
  session = some session;
  timer_active = false;
  dec = idle_decoder;
  ukncount = 0;
  conncount = 1;
  sendbuf = encode hello;
  send_blocks = (7, block_7) ∷ [];
  recv_blocks = [];
  message = "Connected";
  readings = 0;
  log = [];
}

driver-Queued : Queued (hello ∷ []) driver
driver-Queued = record { buffer = refl; marked = λ c. ground arith; keyed = λ c b e. ground arith }

abbrev flushed_driver : Psc
flushed_driver = record driver {
  session = some (record session { output = encode hello });
  sendbuf = [];
  send_blocks = (7, record block_7 { queued = false }) ∷ [];
}

driver_flushed : flush_send env true driver ≡ ok flushed_driver
unfolding flush_send
driver_flushed = refl

abbrev server : Key App
server = record {
  client_count = 1;
  client_head = some 1;
  clients = (1, client none) ∷ [];
  closed = [];
  pvt = started;
}

abbrev idle_rx : Rx
idle_rx = record {
  dec = idle_decoder;
  input = [];
  recv_blocks = (17, record block_7 { code = 17; queued = false }) ∷ [];
  ukncount = 0;
  readings = 0;
  log = [];
}

hello-IsQuestion : IsQuestion hello
hello-IsQuestion = record {
  id_16 = omega arith;
  some_body = omega arith;
  held = omega arith;
  no_command = λ e. ground arith;
}

flush_send-echo_example :
    (t : Session) × (flushed_driver.session ≡ some t)
    × (k' : Key App) × (client_loop big by_threes
          (conf big (λ x. by_threes))
          (suc (length t.output))
          server
          (reading t.output [] 0)
        ≡ ran k')
    × (c : Client) × (lookup 1 k'.clients ≡ some c)
    × (receive little env.clock (record idle_rx { input = c.out.output })
        ≡ receive little env.clock
            (record (deliver_all env.clock (map echo (hello ∷ [])) idle_rx) { input = [] }))
flush_send-echo_example =
    flush_send-echo env big little env.clock by_threes (λ x. by_threes) (hello ∷ []) session driver
      flushed_driver 1 server idle_rx refl refl refl driver-Queued (hello-IsQuestion, tt)
      driver_flushed (λ n. (2, refl)) (λ n. (2, refl))
      (client none, refl, refl, refl, refl, refl, refl) (refl, refl)
