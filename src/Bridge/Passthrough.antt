-- ===== src/Bridge/Passthrough.antt =====
-- bridge.rs, `blind_relay`: a client that is not relayed as a session, through a Worker or to a front.
-- The network is outside: `tunnel` is what a connection through a Worker comes to, with whether it takes
-- the first bytes, and `reach` whether an address and port take a TCP connection. The copying of
-- bytes after that, and what is read of a response to be logged, are outside.
pub mod Dials
pub mod Own
use wrtg.Prelude.{
  ℕ, suc, Bool, true, false, not, Option, none, some, List, [], ◌∷◌, ◌++◌, ◌==◌, if◌then◌else◌,
}
use wrtg.Prelude.Int.{ℤ, pos}
use wrtg.Prelude.Bytes.{Bytes, bytes, is_empty}
use wrtg.Prelude.Eq.{list_eq, ℕ_eq}
use wrtg.Prelude.Durations.{from_secs}
use wrtg.TtlMap
use wrtg.DcLearn.{lookup}
use wrtg.Mtproto.Routing.{decimal}
use wrtg.Fronting.{Attempt, out_of_time, refused, connected}
use wrtg.CfBalancer.{cf_fallback_disabled, worker_passthrough_disabled}
use wrtg.CfWorkerCooldown.{clear_worker_429, mark_worker_429_with_peers, usable_workers}
use wrtg.Media.{http_front_host, http_front_passthrough_payload, should_try_worker_passthrough}
use wrtg.TlsSni.{Scan, panicked, nothing, host}
use wrtg.TlsSni.HttpHost.{passthrough_host, http_host_raw}
use wrtg.TlsSni.Targets.{passthrough_targets}
use wrtg.Bridge.State.{Env, Daemon}
use wrtg.Bridge.Connection.{SocketAddr, is_self_target}

unfoldable pub passthrough_ports : ℕ → List ℕ
passthrough_ports orig_port =
    if orig_port == 0
    then 443 ∷ []
    else if orig_port == 5222
    then 5222 ∷ 443 ∷ []
    else orig_port ∷ []

abbrev pub Target : Type 0
Target = Bytes × ℕ

module _ (self_addr : Option SocketAddr) (reach : Bytes → ℕ → Bool) where
  -- The inner loop: all that has been dialled, and what has been reached.
  unfoldable pub try_ports : Bytes → List ℕ → List Target × Option Target
  try_ports ip [] = ([], none)
  try_ports ip (port ∷ ports) =
      let (tried, reached) = try_ports ip ports in
      if is_self_target self_addr ip port
      then (tried, reached)
      else if reach ip port
      then ((ip, port) ∷ [], some (ip, port))
      else ((ip, port) ∷ tried, reached)

  -- The outer loop, which a connection ends.
  unfoldable pub try_targets : List ℕ → List Bytes → List Target × Option Target
  try_targets ports [] = ([], none)
  try_targets ports (ip ∷ targets) =
      let (tried, reached) = try_ports ip ports in
      let (tried', reached') = try_targets ports targets in
      elim reached [ some target ↦ (tried, some target) | none ↦ (tried ++ tried', reached') ]

-- `asked` is the reading of the clock at the start, and `ended` that at the end of each attempt.
module _ {W : Type 0} (env : Env) (tunnel : Bytes → ℕ → Bytes → Attempt W) (asked : ℕ)
    (ended : ℕ → ℕ) where
  -- The loop over the Workers, from attempt `i` on; the Worker that carries the client.
  unfoldable pub tunnel_workers : Daemon W → Bytes → ℕ → ℕ → List Bytes → Daemon W × Option Bytes
  tunnel_workers s dst_ip port i [] = (s, none)
  tunnel_workers s dst_ip port i (worker ∷ workers) = elim (tunnel worker port dst_ip) [
    | out_of_time ↦ tunnel_workers s dst_ip port (suc i) workers
    | refused e ↦
        tunnel_workers
          (record s {
            workers =
                mark_worker_429_with_peers env.worker s.workers worker e s.balancer.worker_domains
                  (ended i);
          })
          dst_ip port (suc i) workers
    | connected ws sent ↦
        let s' = record s { workers = clear_worker_429 s.workers worker } in
        let rest = tunnel_workers s' dst_ip port (suc i) workers in
        if sent then (s', some worker) else rest
  ]

  unfoldable pub try_worker_passthrough : Daemon W → Bytes → ℕ → Daemon W × Option Bytes
  try_worker_passthrough s orig_ip orig_port =
      let configured = s.balancer.worker_domains in
      let (workers, (usable, cooling)) = usable_workers env.worker s.workers configured asked in
      if is_empty orig_ip
      then (s, none)
      else if cf_fallback_disabled env.no_cfproxy
      then (s, none)
      else if worker_passthrough_disabled env.no_worker_passthrough
      then (s, none)
      else if is_empty configured
      then (s, none)
      else tunnel_workers (record s { workers = workers }) orig_ip
          (if orig_port == 0 then 443 else orig_port) 0 usable

-- The end of a tunnel that has carried no byte back: one warning for a destination, while its mark lasts.
unfoldable pub note_no_data : {W : Type 0} → Daemon W → Bytes → ℕ → ℕ → ℕ → Daemon W
note_no_data s orig_ip port down_bytes now =
    if down_bytes == 0
    then record s {
      no_data_logged =
          (TtlMap.mark_if_absent s.no_data_logged (orig_ip ++ (b':' ∷ decimal (pos port)))
            (from_secs 300) now).0;
    }
    else s

-- How a blind relay goes on: through a Worker with the first bytes, to the last of the targets dialled
-- with the first bytes, nowhere after what was dialled, or to the end of its task by a panic.
pub data Relay : Type 0 where
  via_worker : Bytes → Bytes → Relay
  to_target : List Target → Target → Bytes → Relay
  unreached : List Target → Relay
  crashed : Relay

abbrev pub host_or_front : Scan → Bytes → Option (ℤ × Bool) → ℕ → Option Bytes
host_or_front panicked orig_ip learned orig_port = none
host_or_front nothing orig_ip learned orig_port = some []
host_or_front (host h) orig_ip learned orig_port =
    if is_empty h then some (http_front_host orig_ip learned orig_port) else some h

-- `wire_host` is only logged, but reading it can panic.
abbrev pub wire_host_read : Scan → Relay → Relay
wire_host_read panicked relay = crashed
wire_host_read nothing relay = relay
wire_host_read (host h) relay = relay

abbrev pub reached_or_not : Bytes → List Target × Option Target → Relay
reached_or_not payload (tried, some target) = to_target tried target payload
reached_or_not payload (tried, none) = unreached tried

module _ {W : Type 0} (env : Env) (tunnel : Bytes → ℕ → Bytes → Attempt W)
    (reach : Bytes → ℕ → Bool) (asked : ℕ) (ended : ℕ → ℕ) (warned : ℕ) where
  -- From the choice of the ports on.
  unfoldable pub to_front : Daemon W → Option SocketAddr → Bytes → ℕ → Bytes → Bytes → Bytes → Relay
  to_front s self_addr orig_ip orig_port payload initial h =
      wire_host_read (http_host_raw payload) (
        reached_or_not payload (
          try_targets self_addr reach (passthrough_ports orig_port)
            (passthrough_targets s.routes.front_ip orig_ip h (lookup s.learned orig_ip) orig_port)))

  -- One warning for each host, while its mark lasts.
  abbrev pub note_unreached : Daemon W → Bytes → Relay → Daemon W × Relay
  note_unreached s h (unreached tried) = (
    record s {
      passthrough_warned =
          if is_empty h
          then s.passthrough_warned
          else (TtlMap.mark_if_absent s.passthrough_warned h (from_secs 300) warned).0;
    },
    unreached tried,
  )
  note_unreached s h relay = (s, relay)

  unfoldable pub after_worker :
      Daemon W → Option SocketAddr → Bytes → ℕ → Bytes → Bytes → Option Bytes → Daemon W × Relay
  after_worker s self_addr orig_ip orig_port payload initial (some worker) =
      (s, via_worker worker payload)
  after_worker s self_addr orig_ip orig_port payload initial none =
      elim (host_or_front (passthrough_host initial) orig_ip (lookup s.learned orig_ip) orig_port) [
        | none ↦ (s, crashed)
        | some h ↦ note_unreached s h (to_front s self_addr orig_ip orig_port payload initial h)
      ]

  unfoldable pub blind_relay : Daemon W → Option SocketAddr → Bytes → ℕ → Bytes → Daemon W × Relay
  blind_relay s self_addr orig_ip orig_port initial =
      let payload =
        http_front_passthrough_payload initial orig_ip (lookup s.learned orig_ip) orig_port in
      let (s', worker) = try_worker_passthrough env tunnel asked ended s orig_ip orig_port in
      if should_try_worker_passthrough orig_port
      then after_worker s' self_addr orig_ip orig_port payload initial worker
      else after_worker s self_addr orig_ip orig_port payload initial none
