-- ===== src/Bridge/Connection.antt =====
-- main.rs, `handle_conn`, and `is_self_target` of bridge.rs. The original destination is an IPv4 address;
-- an address of the listener that is not one is `none`, which no text is parsed to.
pub mod Kept
pub mod Reaches
use wrtg.Prelude.{
  ℕ, Bool, true, false, ◌&&◌, Option, none, some, List, [], ◌∷◌, ◌==◌, if◌then◌else◌, map,
}
use wrtg.Prelude.Eq.{ℕ_eq, list_eq, ◌=?◌}
use wrtg.Prelude.Bytes.{Bytes, split_at, parse_uint}
use wrtg.Prelude.Durations.{unwrap_or}
use wrtg.Cipher.{Cipher}
use wrtg.ClientInit.{Read, Init, parsed, passthrough, panics, read_client_init}
use wrtg.DcLearn.{is_ipv4}
use wrtg.Bridge.State.{Env, Daemon}
use wrtg.Bridge.Session.{Net, Readings, Outcome, blind, handle_handshake}

-- The four numbers of an address.
abbrev pub Ipv4 : Type 0
Ipv4 = List ℕ

-- `ip.parse::<IpAddr>().ok()`, at an IPv4 address.
unfoldable pub parse_ipv4 : Bytes → Option Ipv4
parse_ipv4 s =
    if is_ipv4 s
    then some (map (λ p. unwrap_or (parse_uint 256 p) 0) (split_at (λ c. c == b'.') s))
    else none

-- The address and the port of the connection's own socket.
abbrev pub SocketAddr : Type 0
SocketAddr = Option Ipv4 × ℕ

abbrev same_ip : Option Ipv4 → Option Ipv4 → Bool
same_ip none ip = false
same_ip (some a) none = false
same_ip (some a) (some b) = a =? b

unfoldable pub is_self_target : Option SocketAddr → Bytes → ℕ → Bool
is_self_target none ip port = false
is_self_target (some (local_ip, local_port)) ip port =
    port == local_port && same_ip (parse_ipv4 ip) local_ip

-- A connection is dropped, ends its task by a panic, or goes on as a session does.
pub data Fate (W : Type 0) : Type 0 where
  dropped panicked : Fate W
  goes : Outcome W → Fate W

module _ (C : Cipher) {W : Type 0} (env : Env) (net : Net W) (t : Readings) where
  abbrev pub went : Daemon W × Outcome W → Daemon W × Fate W
  went (s, outcome) = (s, goes outcome)

  abbrev pub dispatch : Daemon W → Bytes → List Bytes → Init → Daemon W × Fate W
  dispatch s orig_ip draws (parsed info prefix) =
      went (handle_handshake C env net t s info prefix orig_ip draws)
  dispatch s orig_ip draws (passthrough raw reason) = (s, goes (blind raw))
  dispatch s orig_ip draws panics = (s, panicked)

  -- The reads that are left of the client are those of the session or of the blind relay.
  unfoldable pub handle_conn :
      Daemon W
      → Option SocketAddr
      → Bytes
      → ℕ
      → List Read
      → List Bytes
      → Daemon W × (Fate W × List Read)
  handle_conn s local_addr orig_ip orig_port reads draws =
      if is_self_target local_addr orig_ip orig_port
      then (s, (dropped, reads))
      else (let (init, left) = read_client_init C reads in
          let (s', fate) = dispatch s orig_ip draws init in (s', (fate, left)))
