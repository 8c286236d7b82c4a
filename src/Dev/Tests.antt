-- ===== src/Dev/Tests.antt =====
-- The theorems on the device support at concrete records.
use native.Mathlib.Nat.{mul-div_cancel}
use pscdrv.Common.{
  ℕ, List, [], ◌∷◌, replicate, true, false, none, some, ◌≡◌, refl, ◌⊎◌, inl, inr, ◌+◌, ◌-◌, ◌*◌,
  ◌/◌, ◌==◌, arith,
}
use pscdrv.Wire.{little, big, w16, w64, hton}
use pscdrv.Block.{Block, BlockMap}
use pscdrv.Outcome.{soft_alarm, invalid_alarm, rec_alarm}
use pscdrv.Recv.{idle_decoder}
use pscdrv.Psc.State.{Env, Psc, min_max_buf_size}
use pscdrv.Dev.Link.{Priv, receives, Rec, from_receipt}
use pscdrv.Dev.Analog.{Floats, Scaling}
use pscdrv.Dev.Reg.{got, refused, read_to_field}
use pscdrv.Dev.Reg.Fields.{Fits, read_to_field-from_be, write_from_field-read_to_field}
use pscdrv.Dev.Wf.{read_values, wire_values}
use pscdrv.Dev.Wf.Values.{read_values-wire_values}
use pscdrv.Dev.Ctrl.{write_lo_send_block}
use pscdrv.Dev.Ctrl.Handlers.{AfterLo, write_lo_send_block-AfterLo}
use pscdrv.Dev.Init.{Link}
use pscdrv.Dev.Single.{SinglePriv, received_block, read_msg, value, msg_bytes}
use pscdrv.Dev.Single.Sync.{read_msg-msg_bytes}

abbrev env : Env
env = record { host = little; clock = λ n. some n; inactivity_time = 5; max_send_buffer = 0 }

abbrev block_with : List ℕ → Block
block_with bytes = record {
  code = 7;
  data_bytes = bytes;
  queued = false;
  listeners = [];
  count = 0;
  rxtime = 9;
}

abbrev psc_with : BlockMap → BlockMap → Psc
psc_with sent received = record {
  mask = 3;
  connected = true;
  session = some (record {
    input = [];
    output = [];
    enabled = true;
    low = 8;
    high = min_max_buf_size;
    timeout_read = none;
    timeout_write = none;
  });
  timer_active = false;
  dec = idle_decoder;
  ukncount = 0;
  conncount = 1;
  sendbuf = [];
  send_blocks = sent;
  recv_blocks = received;
  message = "Connected";
  readings = 0;
  log = [];
}

abbrev priv_at : ℕ → Priv
priv_at offset = record {
  bid = 7;
  side = receives;
  offset = offset;
  step = 0;
  time_from_block = true;
  tsoffset = 0;
}

abbrev record_of : ℕ → Rec ℕ
record_of val = record {
  mask = 0;
  rval = 0;
  val = val;
  fval = 0;
  udf = false;
  udf_pending = false;
  text = [];
  nelm = 4;
  nord = 0;
  elements = [];
  alarms = [];
  device_time = true;
  time = from_receipt 0;
}

abbrev four_bytes : Psc
four_bytes = psc_with [] ((7, block_with (1 ∷ 2 ∷ 3 ∷ 4 ∷ [])) ∷ [])

read_to_field-from_be_example :
    (Fits (priv_at 2) (block_with (1 ∷ 2 ∷ 3 ∷ 4 ∷ [])) w16
      × (read_to_field big w16 (priv_at 2) four_bytes ≡ got [] 0x0304))
    ⊎ (¬ Fits (priv_at 2) (block_with (1 ∷ 2 ∷ 3 ∷ 4 ∷ [])) w16
        × (read_to_field big w16 (priv_at 2) four_bytes
            ≡ refused (rec_alarm soft_alarm invalid_alarm)))
read_to_field-from_be_example =
    read_to_field-from_be big w16 (priv_at 2) four_bytes (block_with (1 ∷ 2 ∷ 3 ∷ 4 ∷ []))
      (inl (ground arith)) refl (omega arith, (omega arith, (omega arith, (omega arith, tt)))) refl

-- Natural numbers in place of `double`.
abbrev naturals : Floats
naturals = record {
  Real = ℕ;
  add = λ a b. a + b;
  sub = λ a b. a - b;
  mul = λ a b. a * b;
  div = λ a b. a / b;
  is_zero = λ a. a == 0;
  is_nan = λ a. false;
  of_bits = λ w a. a;
  to_bits = λ w a. a;
}

abbrev slope : Scaling ℕ
slope = record { roff = 3; aslo = 2; aoff = 1; eoff = 0; eslo = 10; linear = true }

div_mul : (a b : ℕ) → (b == 0) ≡ false → a * b / b ≡ a
div_mul a b h = mul-div_cancel a (ground arith)

read_values-wire_values_example :
    read_values little w16 2 (wire_values little w16 (258 ∷ 7 ∷ [])) (9 ∷ []) 4 0 ≡ 258 ∷ 7 ∷ []
unfolding wire_values
read_values-wire_values_example =
    read_values-wire_values little w16 (9 ∷ []) (258 ∷ 7 ∷ []) 4 (omega arith, (omega arith, tt))
      (omega arith) (omega arith)

write_from_field-read_to_field_example :
    read_to_field little w16
      (priv_at 1)
      (psc_with [] ((7, block_with (1 ∷ 0xab ∷ 0xcd ∷ 4 ∷ [])) ∷ []))
    ≡ got [] 0xabcd
unfolding hton
write_from_field-read_to_field_example =
    (write_from_field-read_to_field little w16 (priv_at 1) four_bytes
      (block_with (1 ∷ 2 ∷ 3 ∷ 4 ∷ [])) 0xabcd refl (omega arith) (omega arith)).1

abbrev old_val : List ℕ
old_val = replicate 40 b'x'

abbrev long_text : List ℕ
long_text = replicate 41 b'x'

write_lo_send_block-AfterLo_example :
    AfterLo [] (psc_with ((7, block_with (5 ∷ [])) ∷ []) []) (record_of 7) (
      write_lo_send_block env true true (psc_with ((7, block_with (5 ∷ [])) ∷ []) []) (record_of 7))
write_lo_send_block-AfterLo_example =
    write_lo_send_block-AfterLo env true [] (psc_with ((7, block_with (5 ∷ [])) ∷ []) [])
      (record_of 7) (λ b e. ground arith)
      (record { buffer = refl; marked = λ c. ground arith; keyed = λ c b e. ground arith })

abbrev fresh : SinglePriv
fresh = record { sync_data = []; sync_now = false }

abbrev nine_bytes : List ℕ
nine_bytes = 0 ∷ 0 ∷ 0 ∷ 64 ∷ 1 ∷ 2 ∷ 3 ∷ 4 ∷ 5 ∷ []

read_msg-msg_bytes_example :
    let b = block_with (msg_bytes big w64 (9 ∷ 9 ∷ 9 ∷ 9 ∷ []) 64 77) in
    let (t, request) = received_block big (priv_at 64) b fresh in
    (request ≡ true)
    × (read_msg big w64 (priv_at 64) b t ≡ value 77 (record fresh { sync_data = [] }))
read_msg-msg_bytes_example =
    read_msg-msg_bytes big w64 (9 ∷ 9 ∷ 9 ∷ 9 ∷ []) 77 (priv_at 64)
      (block_with (msg_bytes big w64 (9 ∷ 9 ∷ 9 ∷ 9 ∷ []) 64 77)) fresh (inr refl) refl
      (omega arith) (omega arith) refl refl

abbrev link : Link
link = record {
  text = some (record { name = "PSC1"; block = 7; offset = 2; step = 0 });
  time_item = some 0;
  junk = 3;
  psc_of = λ name. some (psc_with [] []);
}

abbrev linked : Psc
linked = psc_with [] (
    (7, record { code = 7; data_bytes = []; queued = false; listeners = []; count = 3; rxtime = 0 })
    ∷ [])

-- A multi-bit record, whose mask is shifted by 2.
abbrev masked : Rec ℕ
masked = record (record_of 1) { mask = 3 }
