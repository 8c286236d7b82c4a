-- ===== src/Target/Exchange.antt =====
-- The driver and the server of targetApp/pscapp.c at the two ends of a connection.
use mathlib.Core.List.{append_assoc, append-nil}
use pscdrv.Common.{
  ℕ, zero, suc, List, [], ◌∷◌, ◌++◌, length, drop, true, false, Option, none, some, lookup, ◌==◌,
  if◌then◌else◌, ◌≡◌, refl, ◌∙◌, ap, sym, arith, ◌<◌, ◌≤◌, ◌+◌, ◌%◌, ◌^◌, All, min, map,
  length-append, length-drop, subst, take_all, ◌≢◌,
}
use pscdrv.Wire.{Endian}
use pscdrv.Recv.{Rx, receive}
use pscdrv.Recv.Frames.{
  Message, encode, encode_all, IsMessage, deliver_all, IsIdle, receive-encode_all,
}
use pscdrv.Outcome.{ok}
use pscdrv.Psc.State.{Env, Psc, Session}
use pscdrv.Psc.Send.{flush_send}
use pscdrv.Psc.Queue.{Queued}
use pscdrv.Psc.Flush.{AfterFlush, flush_send-AfterFlush}
use pscdrv.Target.Socket.{Network, Sock}
use pscdrv.Target.Msg.{
  Ret, fine, errno, hung, overran, and_then, send_loop, psc_sendall, psc_sendhead, psc_sendmsg,
  psc_header,
}
use pscdrv.Target.Msg.Sends.{Puts, psc_sendmsg-encode}
use pscdrv.Target.Msg.Receives.{IsFlowing, reading}
use pscdrv.Target.Listener.{Client, Key, ran, sent, client_loop, psc_send, psc_max_rx_msg_len}
use pscdrv.Target.Listener.Chain.{has}
use pscdrv.Target.Listener.Walk.{after, after_all, psc_send-Chain}
use pscdrv.Target.Listener.Loop.{Fits, serve, client_loop-serve}
use pscdrv.Target.App.{App, rxmsg, conf}

-- Where no call fails, the whole is sent.
send_loop-flowing :
    (net : Network) (fuel : ℕ) (buf : List ℕ) (s : Sock)
    → IsFlowing net
    → length buf ≤ fuel
    → (send_loop net fuel buf s).0 ≡ fine
unfolding send_loop
send_loop-flowing net zero [] s flow h = refl
send_loop-flowing net (suc fuel) [] s flow h = refl
send_loop-flowing net zero (b ∷ buf) s flow h = absurd (omega arith)
send_loop-flowing net (suc fuel) (b ∷ buf) s flow h =
    let (k, e) = flow s.calls in
    let n = min (suc k) (suc (length buf)) in
    let zero_no : (suc (length buf) == 0) ≡ false = ground arith in
    let n_no : (n == 0) ≡ false = ground arith in
    rw (zero_no, e, n_no)
      (send_loop-flowing net fuel (drop n (b ∷ buf)) _ flow
        (omega (arith, length-drop n (b ∷ buf))))

psc_sendall-flowing :
    (net : Network) (buf : List ℕ) (s : Sock) → IsFlowing net → (psc_sendall net buf s).0 ≡ fine
unfolding psc_sendall
psc_sendall-flowing net buf s flow = send_loop-flowing net (length buf) buf s flow (omega arith)

and_then-fine :
    (r : Ret × Sock) (f : Sock → Ret × Sock)
    → r.0 ≡ fine
    → ((t : Sock) → (f t).0 ≡ fine)
    → (and_then r f).0 ≡ fine
and_then-fine (fine, t) f h g = g t
and_then-fine (errno e, t) f h g = h
and_then-fine (hung, t) f h g = h
and_then-fine (overran, t) f h g = h

psc_sendmsg-flowing :
    (host : Endian) (net : Network) (msgid : ℕ) (buf : List ℕ) (s : Sock)
    → IsFlowing net
    → (psc_sendmsg host net msgid buf s).0 ≡ fine
unfolding psc_sendmsg psc_sendhead
psc_sendmsg-flowing host net msgid buf s flow =
    and_then-fine _ (psc_sendall net buf)
      (psc_sendall-flowing net (psc_header host msgid (length buf)) s flow)
      (λ t. psc_sendall-flowing net buf t flow)

Puts-fine :
    (buf : List ℕ) (s : Sock) (r : Ret × Sock)
    → Puts buf s r
    → r.0 ≡ fine
    → (t : Sock) × (r ≡ (fine, t)) × (t.output ≡ s.output ++ buf)
Puts-fine buf s (fine, t) p e = (t, refl, p.0)
Puts-fine buf s (errno x, t) p e = cc
Puts-fine buf s (hung, t) p e = cc
Puts-fine buf s (overran, t) p e = cc

-- Client `x` alone is linked, is active, and has been sent the bytes `out`.
abbrev pub IsServing : Key App → ℕ → List ℕ → Type 0
IsServing k x out =
    (c : Client) × (k.client_head ≡ some x)
    × (lookup x k.clients ≡ some c)
    × (c.prev ≡ none)
    × (c.next ≡ none)
    × (c.active ≡ true)
    × (c.out.output ≡ out)

-- A message of the protocol that the buffer of the server holds and that is no command.
pub record IsQuestion (m : Message) : Type 0 where
  pub id_16 : m.id < 2 ^ 16
  pub some_body : 0 < length m.body
  pub held : length m.body ≤ psc_max_rx_msg_len
  pub no_command : m.id ≢ 99

-- What the application answers.
abbrev pub echo : Message → Message
echo m = record { id = (m.id + 10) % 2 ^ 16; body = m.body }

module _ (host : Endian) (nets : ℕ → Network) (x : ℕ) (flow : IsFlowing (nets x)) where
  after-fine :
      (m : Message) (c : Client)
      → Fits m
      → c.active ≡ true
      → (t : Sock) × (after host nets m.id m.body x c ≡ record c { out = t })
        × (t.output ≡ c.out.output ++ encode m)
  unfolding after
  after-fine m c (h, k) act =
      let (t, e, o) =
        Puts-fine (encode m) c.out (psc_sendmsg host (nets x) m.id m.body c.out)
          (psc_sendmsg-encode host (nets x) m c.out h k)
          (psc_sendmsg-flowing host (nets x) m.id m.body c.out flow) in
      (
        t,
        ap (λ b. if b then (sent c (psc_sendmsg host (nets x) m.id m.body c.out)).0 else c) act
            ∙ ap (λ r. (sent c r).0) e,
        o,
      )

  psc_send-IsServing :
      (m : Message) (k : Key App) (out : List ℕ)
      → Fits m
      → IsServing k x out
      → (k' : Key App) × (psc_send host nets m.id m.body k ≡ ran k')
        × IsServing k' x (out ++ encode m)
  psc_send-IsServing m k out fits (c, head, l, pr, last, act, o) =
      let (k', e, look, hd, _) =
        psc_send-Chain host nets m.id m.body k (x ∷ []) (c, head, l, pr, refl, last) in
      let (t, a, o') = after-fine m c fits act in
      let self : has x (x ∷ []) ≡ true = ground arith in
      (
        k',
        e,
        (
          record c { out = t },
          hd ∙ head,
          look x
              ∙ ap (after_all host nets m.id m.body (x ∷ []) x) l
              ∙ ap (λ b. some (if b then after host nets m.id m.body x c else c)) self
              ∙ ap some a,
          pr,
          last,
          act,
          o' ∙ ap (λ ys. ys ++ encode m) o,
        ),
      )

  -- The application's callback on a message that is no command.
  rxmsg-IsServing :
      (m : Message) (k : Key App) (out : List ℕ)
      → Fits m
      → m.id ≢ 99
      → IsServing k x out
      → (k' : Key App) × (rxmsg host nets m.id m.body k ≡ ran k')
        × IsServing k' x (out ++ encode (echo m))
  unfolding rxmsg
  rxmsg-IsServing m k out fits not_command serving =
      let (k', e, s) = psc_send-IsServing (echo m) k out (omega arith, fits.1) serving in
      let other : (m.id == 99) ≡ false = ground arith in (k', rw other e, s)

  serve-IsServing :
      (ms : List Message) (k : Key App) (out : List ℕ)
      → All IsQuestion ms
      → IsServing k x out
      → (k' : Key App) × (serve (conf host nets) ms k ≡ ran k')
        × IsServing k' x (out ++ encode_all (map echo ms))
  serve-IsServing [] k out v s = (k, refl, subst (IsServing k x) (sym (append-nil out)) s)
  serve-IsServing (m ∷ ms) k out (v, vs) s =
      let (k', e, s') = rxmsg-IsServing m k out (v.id_16, omega (arith, v.held)) v.no_command s in
      let (k'', e', s'') = serve-IsServing ms k' (out ++ encode (echo m)) vs s' in
      (
        k'',
        rw (take_all psc_max_rx_msg_len m.body v.held, e) e',
        subst (IsServing k'' x) (append_assoc out (encode (echo m)) (encode_all (map echo ms))) s'',
      )

length-encode_all : (ms : List Message) → length ms ≤ length (encode_all ms)
length-encode_all [] = omega arith
length-encode_all (m ∷ ms) =
    omega (arith, length-encode_all ms, length-append m.body (encode_all ms))

All-Fits : (ms : List Message) → All IsQuestion ms → All Fits ms
All-Fits [] v = tt
All-Fits (m ∷ ms) (v, vs) = ((v.id_16, omega (arith, v.held)), All-Fits ms vs)

All-echo : (ms : List Message) → All IsQuestion ms → All IsMessage (map echo ms)
All-echo [] v = tt
All-echo (m ∷ ms) (v, vs) = (
  record { id_16 = omega arith; length_32 = omega (arith, v.held); some_body = v.some_body },
  All-echo ms vs,
)

-- What the driver flushes to a session with nothing left to send, the server of pscapp.c reads, and
-- answers to its only client: the driver's decoder, between messages, takes the answer apart into the
-- messages that were queued, in order, with the same bodies under IDs that are ten more, where no
-- message is a command or longer than the server's buffer and no socket call of the server fails,
-- however the network cuts the bytes of both directions.
pub flush_send-echo :
    (env : Env) (target host : Endian) (clock : ℕ → Option ℕ) (net : Network) (nets : ℕ → Network)
    (ms : List Message) (s : Session) (p q : Psc) (x : ℕ) (k : Key App) (r : Rx)
    → p.connected ≡ true
    → p.session ≡ some s
    → s.output ≡ []
    → Queued ms p
    → All IsQuestion ms
    → flush_send env true p ≡ ok q
    → IsFlowing net
    → IsFlowing (nets x)
    → IsServing k x []
    → IsIdle r
    → (t : Session) × (q.session ≡ some t)
      × (k' : Key App) × (client_loop target net
            (conf target nets)
            (suc (length t.output))
            k
            (reading t.output [] 0)
          ≡ ran k')
      × (c : Client) × (lookup x k'.clients ≡ some c)
      × (receive host clock (record r { input = c.out.output })
          ≡ receive host clock (record (deliver_all clock (map echo ms) r) { input = [] }))
flush_send-echo env target host clock net nets ms s p q x k r con ses empty queued v f flow flows
      serving idle =
    let handed =
      subst (AfterFlush true ms s p) f (flush_send-AfterFlush env true ms s p con ses queued) in
    let (k', e, (c, _, l, _, _, _, o)) = serve-IsServing target nets x flows ms k [] v serving in
    (
      record s { output = encode_all ms },
      handed.0 ∙ ap (λ xs. some (record s { output = xs ++ encode_all ms })) empty,
      k',
      client_loop-serve target net (conf target nets) flow ms _ k [] 0
            (omega (arith, length-encode_all ms)) (All-Fits ms v)
          ∙ e,
      c,
      l,
      ap (λ xs. receive host clock (record r { input = xs }))
            (o ∙ sym (append-nil (encode_all (map echo ms))))
          ∙ receive-encode_all host clock (map echo ms) [] r (All-echo ms v) idle,
    )
