-- ===== src/Xbpm/Reads/Loses.antt =====
-- `connread` of xbpmApp/target/main.c waits for a body as long as a header, and drops a message's
-- length twice.
use pscdrv.Common.{
  ℕ, zero, suc, List, [], ◌∷◌, ◌++◌, length, drop, ◌≡◌, refl, ◌∙◌, ap, true, false, some, lookup,
  ◌<◌, ◌≤◌, ◌+◌, ◌*◌, ◌^◌, arith, length-append, take-append_length, drop-append_length,
}
use pscdrv.Wire.{Endian}
use pscdrv.Recv.Frames.{header_bytes, decode16, decode32}
use pscdrv.Xbpm.{put, Connection, Server, ran, aborted, ◌>>=◌, at-found, maxmsg}
use pscdrv.Xbpm.Reads.{waits, more, broken, read_round, read_loop, after_round, connread}

-- A body has been stored, and the bytes `rx` are left.
abbrev pub stored : Connection → ℕ → List ℕ → List ℕ → Connection
stored conn id body rx = record conn {
  havehead = false;
  msgid = id;
  msglen = length body;
  user_buf = body;
  rx = rx;
}

-- Between messages, with a length of the last message that a header reaches; it is 8 at most.
abbrev pub IsFresh : Connection → Type 0
IsFresh conn = (conn.havehead ≡ false) × (conn.msglen ≤ 8)

abbrev pub with_head : Connection → ℕ → ℕ → List ℕ → Connection
with_head conn id len rx = record conn { havehead = true; msgid = id; msglen = len; rx = rx }

drop_all : (n : ℕ) (xs : List ℕ) → length xs ≤ n → drop n xs ≡ []
drop_all zero [] h = refl
drop_all zero (x ∷ xs) h = absurd (omega arith)
drop_all (suc n) [] h = refl
drop_all (suc n) (x ∷ xs) h = drop_all n xs (omega arith)

read_round-head :
    (host : Endian) (conn : Connection) (id len : ℕ) (rest : List ℕ)
    → id < 2 ^ 16
    → len ≤ maxmsg
    → conn.havehead ≡ false
    → conn.msglen ≤ 8
    → conn.rx ≡ header_bytes id len ++ rest
    → read_round host conn ≡ more (with_head conn id len rest)
unfolding read_round
read_round-head host conn id len rest h k f s e =
    rw e (ground (arith, decode16 host id h, decode32 host len (omega arith)))

connread-rounds :
    (host : Endian) (c : ℕ) (s : Server) (conn : Connection)
    → lookup c s.conns ≡ some conn
    → connread host c s
      ≡ after_round
          (λ t. after_round (read_loop host (2 * length conn.rx) c s) c s (read_round host t))
          c
          s
          (read_round host conn)
unfolding connread read_loop
connread-rounds host c s conn l =
    let fuel : 2 * length conn.rx + 2 ≡ suc (suc (2 * length conn.rx)) = omega arith in
    ap (λ r. r >>= λ (t : Connection). read_loop host (2 * length t.rx + 2) c s t) (at-found c s l)
    ∙ ap (λ f. read_loop host f c s conn) fuel

module _ (host : Endian) (c : ℕ) (s : Server) (conn : Connection)
    (here : lookup c s.conns ≡ some conn) (id len : ℕ) (id_16 : id < 2 ^ 16) (short : len ≤ maxmsg)
    (fresh : IsFresh conn) where
  read_round-part :
      (part : List ℕ)
      → 8 ≤ length part
      → length part < len
      → read_round host (with_head conn id len part) ≡ broken
  unfolding read_round
  read_round-part part enough less = ground arith

  -- On a connection that is between messages and whose last message had a body of 8 bytes at most (or
  -- none came yet), a message with a body of at most 1024 bytes that has come with eight bytes of its
  -- body or more, but not with all of it: an assertion fails, and the server ends with all its
  -- connections.
  pub connread-aborted :
      (part : List ℕ)
      → conn.rx ≡ header_bytes id len ++ part
      → 8 ≤ length part
      → length part < len
      → connread host c s ≡ aborted
  connread-aborted part e enough less =
      connread-rounds host c s conn here
      ∙ ap (after_round _ c s) (read_round-head host conn id len part id_16 short fresh.0 fresh.1 e)
      ∙ ap (after_round _ c s) (read_round-part part enough less)

  read_round-body :
      (body rest : List ℕ)
      → length body ≡ len
      → 8 ≤ len
      → read_round host (with_head conn id len (body ++ rest))
        ≡ more (stored conn id body (drop len rest))
  unfolding read_round
  read_round-body body rest e enough = rw (← e) (
      ground (
        arith,
        length-append body rest,
        take-append_length body rest,
        drop-append_length body rest,
      ))

  -- With nothing left, the code waits for the length of the last body.
  read_round-empty :
      (body : List ℕ)
      → length body ≡ len
      → 0 < len
      → read_round host (stored conn id body [])
        ≡ waits (record (stored conn id body []) { low = len })
  unfolding read_round
  read_round-empty body e pos = ground arith

  read_loop-empty :
      (fuel : ℕ) (body : List ℕ)
      → 0 < fuel
      → length body ≡ len
      → 0 < len
      → read_loop host fuel c s (stored conn id body [])
        ≡ ran (put c (record (stored conn id body []) { low = len }) s)
  unfolding read_loop
  read_loop-empty zero body h e pos = absurd (omega arith)
  read_loop-empty (suc fuel) body h e pos =
      ap (after_round (read_loop host fuel c s) c s) (read_round-empty body e pos)

  -- On a connection that is between messages and whose last message had a body of 8 bytes at most (or
  -- none came yet), a message with a body of 8 to 1024 bytes that has come whole, with no more bytes
  -- behind it than the body has: the body is stored, but these bytes are dropped unread, and the server
  -- waits for as many bytes again before it looks for the next header.
  pub connread-dropped :
      (body rest : List ℕ)
      → conn.rx ≡ header_bytes id len ++ (body ++ rest)
      → length body ≡ len
      → 8 ≤ len
      → length rest ≤ len
      → connread host c s ≡ ran (put c (record (stored conn id body []) { low = len }) s)
  connread-dropped body rest e whole enough few =
      connread-rounds host c s conn here
      ∙ ap (after_round _ c s)
          (read_round-head host conn id len (body ++ rest) id_16 short fresh.0 fresh.1 e)
      ∙ ap (after_round _ c s) (read_round-body body rest whole enough)
      ∙ ap (λ xs. read_loop host (2 * length conn.rx) c s (stored conn id body xs))
          (drop_all len rest few)
      ∙ read_loop-empty (2 * length conn.rx) body (omega (arith, ap length e)) whole (omega arith)
