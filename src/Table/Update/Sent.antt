-- ===== src/Table/Update/Sent.antt =====
-- What an update of the table sends, on a PSC that is connected and has nothing waiting.
use mathlib.Core.List.{append_assoc, append-nil}
use pscdrv.Common.{
  ℕ, List, [], ◌∷◌, ◌++◌, length, Bool, true, none, some, ◌≡◌, refl, inl, inr, arith, Bool-cases,
  ap, ◌∙◌, sym, ◌<◌, ◌≤◌, ◌+◌, ◌^◌, ltb, length-overwrite_at,
}
use pscdrv.Wire.{Endian}
use pscdrv.Outcome.{Result, ok, threw, aborted, faulted, ◌>>=◌}
use pscdrv.Recv.Frames.{Message, encode, encode_all}
use pscdrv.Psc.State.{Env, Psc, Session, get_send}
use pscdrv.Psc.Send.{queue_send, flush_send}
use pscdrv.Psc.Queue.{Queued, AfterQueue, queue_send-Queued, queue_block_ok}
use pscdrv.Psc.Flush.{flush_send-cases, flushed-Queued}
use pscdrv.Dev.Link.{success}
use pscdrv.Floating.{Floating}
use pscdrv.Table.{Controller}
use pscdrv.Table.Pack.{max_psc_point_count, sub10k_pack}
use pscdrv.Table.Pack.Words.{length-sub10k_pack}
use pscdrv.Table.Update.{
  Tables, Updated, transient_table_used, ended, crashed, overran, Room, send_table, marked,
  after_send, send_target, send_both,
}

-- Connected, with a session, and with no message waiting.
abbrev pub IsReady : Session → Psc → Type 0
IsReady σ p = (p.connected ≡ true) × (p.session ≡ some σ) × Queued [] p

abbrev pub sent : Session → List Message → Session
sent σ ms = record σ { output = σ.output ++ encode_all ms }

-- How a send ends: the message is at the end of the session's output; or it throws.
abbrev pub AfterSend : Session → Message → Result Psc → Type 0
AfterSend σ m (ok q) = IsReady (sent σ (m ∷ [])) q
AfterSend σ m (threw e q) = Unit
AfterSend σ m aborted = ⊥
AfterSend σ m faulted = ⊥

queue_send-keeps :
    (env : Env) (junk : ℕ) (fits : Bool) (id : ℕ) (buf : List ℕ) (p q : Psc)
    → p.connected ≡ true
    → queue_send env junk fits id buf p ≡ ok q
    → (q.connected ≡ true) × (q.session ≡ p.session)
unfolding queue_send get_send
queue_send-keeps env junk fits id buf p q c e =
    let (b, here, free, is) = queue_block_ok env fits id buf (get_send junk id p) q c e in
    (ap (λ x. x.connected) is ∙ c, ap (λ x. x.session) is)

encode_all-append : (ms ns : List Message) → encode_all (ms ++ ns) ≡ encode_all ms ++ encode_all ns
encode_all-append [] ns = refl
encode_all-append (m ∷ ms) ns =
    ap (◌++◌ (encode m)) (encode_all-append ms ns)
    ∙ sym (append_assoc (encode m) (encode_all ms) (encode_all ns))

pub sent-nil : (σ : Session) → σ ≡ sent σ []
sent-nil σ = ap (λ xs. record σ { output = xs }) (sym (append-nil σ.output))

pub sent-append : (σ : Session) (ms ns : List Message) → sent (sent σ ms) ns ≡ sent σ (ms ++ ns)
sent-append σ ms ns =
    ap (λ xs. record σ { output = xs })
      (append_assoc σ.output (encode_all ms) (encode_all ns)
        ∙ ap (◌++◌ σ.output) (sym (encode_all-append ms ns)))

module _ (env : Env) (junk : ℕ) (room : Room) (bid : ℕ) (bytes : List ℕ) (σ : Session) where
  abbrev message : Message
  message = record { id = bid; body = bytes }

  flush-AfterSend :
      (q : Psc)
      → q.connected ≡ true
      → q.session ≡ some σ
      → Queued (message ∷ []) q
      → AfterSend σ message (flush_send env room.moved q)
  flush-AfterSend q c e v = elim (flush_send-cases env room.moved σ q c e) [
    | inl h ↦ rw h (
      c,
      ap (λ xs. some (record σ { output = σ.output ++ xs })) v.buffer,
      flushed-Queued σ (message ∷ []) q v,
    )
    | inr (inl (x, h)) ↦ rw h tt
    | inr (inr (x, m, h)) ↦ rw h tt
  ]

  queued-AfterSend :
      (p : Psc) (r : Result Psc)
      → IsReady σ p
      → queue_send env junk room.fits bid bytes p ≡ r
      → AfterQueue [] message p r
      → AfterSend σ message (r >>= flush_send env room.moved)
  queued-AfterSend p (ok q) (c, e, v) is (inl (c', new, v')) =
      let (c'', e') = queue_send-keeps env junk room.fits bid bytes p q c is in
      flush-AfterSend q c'' (e' ∙ e) v'
  queued-AfterSend p (ok q) (c, e, v) is (inr (c', v')) = absurd (ground arith)
  queued-AfterSend p (threw x q) ready is v' = tt
  queued-AfterSend p aborted ready is v' = v'
  queued-AfterSend p faulted ready is v' = v'

  send_table-AfterSend :
      (p : Psc)
      → bid < 2 ^ 16
      → length bytes < 2 ^ 32
      → IsReady σ p
      → AfterSend σ message (send_table env junk room bid bytes p)
  unfolding send_table
  send_table-AfterSend p h k ready =
      queued-AfterSend p _ ready refl
        (queue_send-Queued env junk room.fits bid bytes [] p h k ready.2)

module _ (fl : Floating) where
  open fl use {Float}

  -- The message with a table.
  abbrev pub table_message : Endian → Bool → ℕ → ℕ → List Float → Message
  table_message host unipolar mode bid table = record {
    id = bid;
    body = marked fl host unipolar mode table;
  }

  length-marked :
      (host : Endian) (unipolar : Bool) (mode : ℕ) (table : List Float)
      → length table ≤ max_psc_point_count
      → length (marked fl host unipolar mode table) ≡ 43440
  unfolding marked
  length-marked host unipolar mode table h =
      length-overwrite_at 4 (mode ∷ []) (sub10k_pack fl host unipolar table)
      ∙ length-sub10k_pack fl unipolar host table h

  -- How sending ends: the session is the given one and the new table is the table before the next
  -- one; or it throws, with an alarm, and the table before the next one is still the old one; or the
  -- table is too long for the buffer.
  abbrev pub Delivered : Session → Controller Float → Updated (Tables Float) → Type 0
  Delivered τ t (ended success none s) = IsReady τ s.tx × (s.control.prev_tg ≡ t.next_tg)
  Delivered τ t (ended success (some _) s) = ⊥
  Delivered τ t (ended _ none s) = ⊥
  Delivered τ t (ended _ (some _) s) = s.control.prev_tg ≡ t.prev_tg
  Delivered τ t crashed = ⊥
  Delivered τ t overran = max_psc_point_count < length t.next_tg

  after_send-Delivered :
      (τ : Session) (m : Message) (σ : Session) (t : Controller Float) (s : Tables Float)
      (k : Tables Float → Updated (Tables Float)) (r : Result Psc)
      → s.control.prev_tg ≡ t.prev_tg
      → AfterSend σ m r
      → ((q : Psc) → IsReady (sent σ (m ∷ [])) q → Delivered τ t (k (record s { tx = q })))
      → Delivered τ t (after_send fl s r k)
  after_send-Delivered τ m σ t s k (ok q) e v then = then q v
  after_send-Delivered τ m σ t s k (threw x q) e v then = e
  after_send-Delivered τ m σ t s k aborted e v then = v
  after_send-Delivered τ m σ t s k faulted e v then = v

  module _ (env : Env) (junk : ℕ) (unipolar : Bool) (σ : Session) where
    pub send_target-Delivered :
        (room : Room) (mode : ℕ) (s : Tables Float)
        → s.control.bid < 2 ^ 16
        → IsReady σ s.tx
        → Delivered
            (sent σ (table_message env.host unipolar mode s.control.bid s.control.next_tg ∷ []))
            s.control
            (send_target fl env junk unipolar room mode s)
    unfolding send_target
    send_target-Delivered room mode s h ready =
        let t = s.control in
        let bytes = marked fl env.host unipolar mode t.next_tg in
        elim (Bool-cases (ltb max_psc_point_count (length t.next_tg))) [
          | inl long ↦ rw long (ground arith)
          | inr short ↦ rw short (
              after_send-Delivered _ (record { id = t.bid; body = bytes }) σ t s _ _ refl
                (send_table-AfterSend env junk room t.bid bytes σ s.tx h
                  (omega (arith, length-marked env.host unipolar mode t.next_tg (ground arith)))
                  ready)
                (λ q v. (v, refl)))
        ]

  module _ (env : Env) (junk : ℕ) (unipolar : Bool) (σ : Session) where
    pub send_both-Delivered :
        (first second : Room) (s : Tables Float)
        → s.control.bid < 2 ^ 16
        → length s.control.next_tr ≡ length s.control.next_tg
        → IsReady σ s.tx
        → let t = s.control in
          Delivered
            (sent
              (sent σ (table_message env.host unipolar 2 t.bid t.next_tr ∷ []))
              (table_message env.host unipolar 1 t.bid t.next_tg ∷ []))
            t
            (send_both fl env junk unipolar first second s)
    unfolding send_both
    send_both-Delivered first second s h same ready =
        let t = s.control in
        let bytes = marked fl env.host unipolar 2 t.next_tr in
        elim (Bool-cases (ltb max_psc_point_count (length t.next_tg))) [
          | inl long ↦ rw long (ground arith)
          | inr short ↦ rw short (
              after_send-Delivered _ (record { id = t.bid; body = bytes }) σ t
                (record s {
                  control = record t { alarm_bits = t.alarm_bits + transient_table_used };
                })
                _ _ refl
                (send_table-AfterSend env junk first t.bid bytes σ s.tx h
                  (omega (arith, length-marked env.host unipolar 2 t.next_tr (ground arith))) ready)
                (λ q v.
                  send_target-Delivered env junk unipolar
                    (sent σ (record { id = t.bid; body = bytes } ∷ [])) second 1
                    (record s {
                      control = record t { alarm_bits = t.alarm_bits + transient_table_used };
                      tx = q;
                    })
                    h v))
        ]
