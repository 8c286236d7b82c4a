-- ===== src/Xbpm.antt =====
-- The server of the XBPM application: xbpmApp/target/main.c, app.c and app.h, which runs under libevent.
-- A pointer to a `connection` is a number, and a `connection` that has been freed is not in `conns`.
pub mod Reads
mod Tests
pub mod Frees
use pscdrv.Common.{
  ℕ, zero, suc, List, [], ◌∷◌, ◌++◌, length, take, drop, get_or, Bool, true, false, not, ◌&&◌, ◌||◌,
  Option, none, some, lookup, insert, ltb, ◌==◌, if◌then◌else◌, ◌+◌, ◌*◌, ◌%◌, ◌^◌, ◌≡◌, refl,
}
use pscdrv.Wire.{Endian, load, store, htons, htonl}

-- `struct connection`: `rx` and `tx` are the buffers of its `bufferevent`, `low` the read watermark.
pub record Connection : Type 0 where
  pub conn_next : Option ℕ
  pub conn_prev : Option ℕ
  pub rx : List ℕ
  pub tx : List ℕ
  pub low : ℕ
  pub user_buf : List ℕ
  pub havehead : Bool
  pub msgid : ℕ
  pub msglen : ℕ
  pub msg_drop_cnt : ℕ

pub record Server : Type 0 where
  pub conn_first : Option ℕ
  pub conn_fail_cnt : ℕ
  pub cycle_count : ℕ
  pub conns : List (ℕ × Connection)

-- `aborted`: an `assert` fails. `freed`: memory that has been freed is used. `faulted`: a null pointer
-- is used. `endless` is no outcome of the code: the fuel ran out.
pub data Ran (A : Type 0) : Type 0 where
  ran : A → Ran A
  aborted freed faulted endless : Ran A

infixl 5 ◌>>=◌
abbrev pub ◌>>=◌ : {A B : Type 0} → Ran A → (A → Ran B) → Ran B
ran a >>= f = f a
aborted >>= f = aborted
freed >>= f = freed
faulted >>= f = faulted
endless >>= f = endless

abbrev pub maxmsg : ℕ
maxmsg = 1024

abbrev pub maxout : ℕ
maxout = 1024

-- What stands behind a pointer.
abbrev pub at : ℕ → Server → Ran Connection
at c s = elim (lookup c s.conns) [ none ↦ freed | some conn ↦ ran conn ]

pub at-found :
    (c : ℕ) (s : Server) {conn : Connection} → lookup c s.conns ≡ some conn → at c s ≡ ran conn
at-found c s l = rw (at, l) refl

abbrev pub put : ℕ → Connection → Server → Server
put c conn s = record s { conns = insert c conn s.conns }

abbrev pub erase {ℓ} : {V : Type ℓ} → ℕ → List (ℕ × V) → List (ℕ × V)
erase c [] = []
erase c ((j, v) ∷ m) = if c == j then m else (j, v) ∷ erase c m

-- "patch outself out of the connection list"
abbrev pub link_next : ℕ → Connection → Server → Ran Server
link_next c conn s = elim conn.conn_prev [
  | none ↦
      let first : Bool = elim s.conn_first [ none ↦ false | some f ↦ f == c ] in
      if first then ran (record s { conn_first = conn.conn_next }) else aborted
  | some p ↦ at p s >>= λ prev. ran (put p (record prev { conn_next = conn.conn_next }) s)
]

abbrev pub link_prev : Connection → Server → Ran Server
link_prev conn s = elim conn.conn_next [
  | none ↦ ran s
  | some n ↦ at n s >>= λ next. ran (put n (record next { conn_prev = conn.conn_prev }) s)
]

-- `on_disconnect` of app.c does nothing.
unfoldable pub freeconn : ℕ → Server → Ran Server
freeconn c s = at c s >>= λ conn.
    link_next c conn s >>= link_prev conn >>= λ s'. ran (record s' { conns = erase c s'.conns })

-- `conn_prev` of the old head, where there is one.
abbrev pub link_first : ℕ → Option ℕ → Server → Ran Server
link_first c none s = ran s
link_first c (some f) s = at f s >>= λ first. ran (put f (record first { conn_prev = some c }) s)

-- The bytes of a `msghead`.
abbrev pub msghead : Endian → ℕ → ℕ → List ℕ
msghead host msgid len =
    b'P' ∷ b'S' ∷ store host 2 (htons host msgid) ++ store host 4 (htonl host len)

-- What libevent answers to the two calls of `evbuffer_add`.
pub record Adds : Type 0 where
  pub head : Bool
  pub body : Bool

module _ (host : Endian) where
  -- The flag is the return value.
  unfoldable pub txconn : Adds → ℕ → ℕ → List ℕ → Server → Ran (Server × Bool)
  unfolding freeconn
  txconn adds c msgid buf s = at c s >>= λ conn.
      let head = msghead host msgid (length buf) in
      if ltb maxout (length conn.tx) || not adds.head
      then ran (put c (record conn { msg_drop_cnt = (conn.msg_drop_cnt + 1) % 2 ^ 32 }) s, false)
      else if adds.body
      then ran (put c (record conn { tx = conn.tx ++ (head ++ buf) }) s, false)
      else freeconn c (record (put c (record conn { tx = conn.tx ++ head }) s) {
        conn_fail_cnt = (s.conn_fail_cnt + 1) % 2 ^ 32;
      })
        >>= λ s'. ran (s', true)

  -- The loops of `txall` and `onping`: `conn_next` is read after the message has been sent. `body` is
  -- what each connection is sent.
  unfoldable pub tx_walk :
      (ℕ → Adds) → ℕ → ℕ → (Connection → List ℕ) → Option ℕ → Server → Ran Server
  unfolding txconn
  tx_walk adds zero msgid body at_conn s = endless
  tx_walk adds (suc fuel) msgid body none s = ran s
  tx_walk adds (suc fuel) msgid body (some c) s = at c s >>= λ conn.
      txconn (adds c) c msgid (body conn) s >>= λ (s', _).
      at c s' >>= λ conn'. tx_walk adds fuel msgid body conn'.conn_next s'

  unfoldable pub txall : (ℕ → Adds) → ℕ → List ℕ → Server → Ran Server
  unfolding tx_walk
  txall adds msgid buf s = tx_walk adds (suc (length s.conns)) msgid (λ conn. buf) s.conn_first s

  abbrev pub msgping : Server → Connection → List ℕ
  msgping s conn =
      store host 4 (htonl host s.cycle_count)
      ++ (store host 4 (htonl host s.conn_fail_cnt) ++ store host 4 (htonl host conn.msg_drop_cnt))

  unfoldable pub onping : (ℕ → Adds) → Server → Ran Server
  unfolding tx_walk
  onping adds s =
      let s' : Server = record s { cycle_count = (s.cycle_count + 1) % 2 ^ 32 } in
      tx_walk adds (suc (length s'.conns)) 42 (msgping s') s'.conn_first s'

  -- `on_connect` of app.c.
  unfoldable pub on_connect : Adds → ℕ → Server → Ran Server
  unfolding txconn
  on_connect adds c s = txconn adds c 43 (store host 4 (htonl host 42)) s >>= λ (s', _). ran s'

  -- `onconn`, with the success of `calloc`, the check of the address and of the two allocations.
  unfoldable pub onconn : (calloc ipv4 bev buf : Bool) → Adds → ℕ → Server → Ran Server
  unfolding on_connect
  onconn calloc ipv4 bev buf adds fresh s =
      let conn : Connection = record {
        conn_next = none;
        conn_prev = none;
        rx = [];
        tx = [];
        low = 8;
        user_buf = [];
        havehead = false;
        msgid = 0;
        msglen = 0;
        msg_drop_cnt = 0;
      } in
      if not calloc
      then faulted
      else if not ipv4 || not bev || not buf
      then ran (record s { conn_fail_cnt = (s.conn_fail_cnt + 1) % 2 ^ 32 })
      else on_connect adds fresh (record s { conns = (fresh, conn) ∷ s.conns }) >>= λ s'.
          link_first fresh s'.conn_first s' >>= λ s''. at fresh s'' >>= λ conn'.
          ran (record (put fresh (record conn' { conn_next = s'.conn_first }) s'') {
            conn_first = some fresh;
          })
