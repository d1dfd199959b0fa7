-- ===== src/Bridge/Tcp.antt =====
-- bridge.rs, `bridge_tcp`: a session over TCP.
-- The two tasks are interleaved as a list of events says. A read comes with whether the write of what it becomes
-- succeeds; a read of nothing, and one that fails, end a direction. `abandoned` is the end of the drain after one
-- direction has ended, or the idle guard: the tasks that still run are aborted.
pub mod Transparent
mod Examples
use wrtg.Prelude.{Bool, true, false, List, [], ◌∷◌, ◌++◌, if◌then◌else◌}
use wrtg.Prelude.Bytes.{Bytes}
use wrtg.Cipher.{Cipher}
use wrtg.Mtproto.Crypto.{CryptoCtx, CryptoUp, CryptoDown, client_to_telegram, telegram_to_client}
use wrtg.Mtproto.Crypto

pub data Event : Type 0 where
  from_client from_telegram : Bytes → Bool → Event
  client_ended telegram_ended abandoned : Event

pub record Session (C : Cipher) : Type 0 where
  pub up : CryptoUp C
  pub down : CryptoDown C
  pub up_runs : Bool
  pub down_runs : Bool
  pub to_telegram : List Bytes
  pub to_client : List Bytes

module _ (C : Cipher) where
  abbrev pub started : CryptoCtx C → Session C
  started ctx =
      let (up, down) = Crypto.split C ctx in
      record {
        up = up;
        down = down;
        up_runs = true;
        down_runs = true;
        to_telegram = [];
        to_client = [];
      }

  -- A round of the loop of the task `up`.
  unfoldable pub up_round : Session C → Bytes → Bool → Session C
  up_round s buf written =
      let (up', out) = client_to_telegram C s.up buf in
      if written
      then record s { up = up'; to_telegram = s.to_telegram ++ (out ∷ []) }
      else record s { up = up'; up_runs = false }

  unfoldable pub down_round : Session C → Bytes → Bool → Session C
  down_round s buf written =
      let (down', out) = telegram_to_client C s.down buf in
      if written
      then record s { down = down'; to_client = s.to_client ++ (out ∷ []) }
      else record s { down = down'; down_runs = false }

  unfoldable pub on_event : Session C → Event → Session C
  on_event s (from_client buf written) = if s.up_runs then up_round s buf written else s
  on_event s (from_telegram buf written) = if s.down_runs then down_round s buf written else s
  on_event s client_ended = record s { up_runs = false }
  on_event s telegram_ended = record s { down_runs = false }
  on_event s abandoned = record s { up_runs = false; down_runs = false }

  unfoldable pub bridge_tcp : Session C → List Event → Session C
  bridge_tcp s [] = s
  bridge_tcp s (e ∷ es) = bridge_tcp (on_event s e) es
