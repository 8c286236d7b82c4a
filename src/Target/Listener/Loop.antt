-- ===== src/Target/Listener/Loop.antt =====
-- The message loop of `handle_client` (targetApp/listener.c) on a stream of the protocol.
use pscdrv.Common.{
  ℕ, zero, min, suc, List, [], ◌∷◌, length, take, ◌≡◌, refl, ◌∙◌, ap, arith, ◌<◌, ◌^◌, All,
}
use pscdrv.Wire.{Endian}
use pscdrv.Recv.Frames.{Message, encode_all}
use pscdrv.Target.Socket.{Network, enotconn}
use pscdrv.Target.Msg.{nothing, errno, psc_recvmsg, psc_recvhead, psc_recvall, recv_loop}
use pscdrv.Target.Msg.Receives.{IsFlowing, reading}
use pscdrv.Target.Msg.Messages.{psc_recvmsg-flowing}
use pscdrv.Target.Listener.{
  Key, Ran, ran, freed, endless, ◌>>=◌, PscConfig, after_msg, client_loop, psc_max_rx_msg_len,
}

-- What the protocol allows.
abbrev pub Fits : Message → Type 0
Fits m = (m.id < 2 ^ 16) × (length m.body < 2 ^ 32)

module _ {A : Type 0} where
  -- The callback for each message in turn, with the bytes of the body that the buffer holds.
  abbrev pub serve : PscConfig A → List Message → Key A → Ran A
  serve conf [] k = ran k
  serve conf (m ∷ ms) k = conf.recv m.id (take psc_max_rx_msg_len m.body) k >>= serve conf ms

  >>=-eq : (r : Ran A) (f g : Key A → Ran A) → ((k : Key A) → f k ≡ g k) → (r >>= f) ≡ (r >>= g)
  >>=-eq (ran k) f g h = h k
  >>=-eq freed f g h = refl
  >>=-eq endless f g h = refl

psc_recvmsg-closed :
    (host : Endian) (net : Network) (maxlen : ℕ) (out : List ℕ) (c : ℕ)
    → IsFlowing net
    → psc_recvmsg host net maxlen (reading [] out c)
      ≡ nothing (errno enotconn) (reading [] out (suc c))
unfolding psc_recvmsg psc_recvhead psc_recvall recv_loop
psc_recvmsg-closed host net maxlen out c flow =
    let (k, e) = flow c in
    let none_left : min (min (suc k) 8) 0 ≡ 0 = omega arith in rw (e, none_left) refl

module _ {A : Type 0} (host : Endian) (net : Network) (conf : PscConfig A)
    (flow : IsFlowing net) where
  pub client_loop-serve :
      (ms : List Message) (fuel : ℕ) (k : Key A) (out : List ℕ) (c : ℕ)
      → length ms < fuel
      → All Fits ms
      → client_loop host net conf fuel k (reading (encode_all ms) out c) ≡ serve conf ms k
  unfolding client_loop
  client_loop-serve ms zero k out c h v = absurd (omega arith)
  client_loop-serve [] (suc fuel) k out c h v =
      ap (after_msg conf (client_loop host net conf fuel) k)
        (psc_recvmsg-closed host net psc_max_rx_msg_len out c flow)
  client_loop-serve (m ∷ ms) (suc fuel) k out c h (v, vs) =
      let (c', r) =
        psc_recvmsg-flowing host net flow psc_max_rx_msg_len m (encode_all ms) out c v.0 v.1 in
      ap (after_msg conf (client_loop host net conf fuel) k) r
      ∙ >>=-eq (conf.recv m.id (take psc_max_rx_msg_len m.body) k) _ _
          (λ k'. client_loop-serve ms fuel k' out c' (omega arith) vs)
