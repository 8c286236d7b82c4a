-- ===== src/Target/App.antt =====
-- The server application: targetApp/pscapp.c. Its static variables stand behind `conf->pvt`, and so
-- does the count of the thread `periodic`; what it prints is left out.
use pscdrv.Common.{ℕ, List, [], ◌∷◌, length, not, ◌||◌, some, ◌==◌, if◌then◌else◌, ◌+◌, ◌%◌, ◌^◌}
use pscdrv.Wire.{Endian, load, store}
use pscdrv.Target.Socket.{Network}
use pscdrv.Target.Listener.{
  Key, Ran, ran, ◌>>=◌, PscEvent, psc_conn, psc_dis, PscConfig, psc_send, psc_send_one,
}

pub record App : Type 0 where
  pub clicount : ℕ
  pub sendperiodic : ℕ
  pub count : ℕ

-- As the program starts.
abbrev pub started : App
started = record { clicount = 0; sendperiodic = 1; count = 0 }

abbrev pub hello_world : List ℕ
hello_world = b'h' ∷ b'e' ∷ b'l' ∷ b'l' ∷ b'o' ∷ b' ' ∷ b'w' ∷ b'o' ∷ b'r' ∷ b'l' ∷ b'd' ∷ b'!' ∷ []

module _ (host : Endian) (nets : ℕ → Network) where
  unfoldable pub onconn : PscEvent → ℕ → Key App → Ran App
  onconn psc_dis cli k = ran k
  onconn psc_conn cli k = psc_send_one host nets cli 42 hello_world k >>= λ k'.
      psc_send_one host nets cli 55 (store host 4 k'.pvt.clicount) k'

  -- `msg` are the `msglen` bytes of the message.
  unfoldable pub rxmsg : ℕ → List ℕ → Key App → Ran App
  rxmsg msgid msg k =
      if not (msgid == 99) || not (length msg == 4)
      then psc_send host nets ((msgid + 10) % 2 ^ 16) msg k
      else ran (record k { pvt = record k.pvt { sendperiodic = load host msg } })

  -- A round of the loop of `periodic`.
  unfoldable pub periodic : Key App → Ran App
  periodic k =
      let sends = psc_send host nets 14 (store host 4 k.pvt.count) k in
      (if k.pvt.sendperiodic == 0 then ran k else sends) >>= λ k'.
      ran (record k' { pvt = record k'.pvt { count = (k'.pvt.count + 1) % 2 ^ 32 } })

  abbrev pub conf : PscConfig App
  conf = record { conn = some onconn; recv = rxmsg }
