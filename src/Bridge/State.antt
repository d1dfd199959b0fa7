-- ===== src/Bridge/State.antt =====
-- What a session of bridge.rs and main.rs reads and writes of the daemon: the statics of the modules
-- it calls, as a record, and the settings from the environment, as another.
use wrtg.Prelude.{Option}
use wrtg.Prelude.Bytes.{Bytes}
use wrtg.Mtproto.Routing.{Routes}
use wrtg.Cooldown429.{Settings, Cooldowns}
use wrtg.TtlMap.{TtlMap}
use wrtg.WsBlacklist.{Blacklist}
use wrtg.IpFail
use wrtg.IpFail.{Fails}
use wrtg.Fronting.{FrontingFail}
use wrtg.CfWorkerCooldown.{Workers}
use wrtg.CfBalancer.{Balancer}
use wrtg.DcLearn.{Learned}
use wrtg.ConnPool.{Slots}

pub record Env : Type 0 where
  pub ip : IpFail.Env
  pub fronting_sni : Option Bytes
  pub fronting_cooldown_sec : Option Bytes
  pub ws_blacklist_ttl_sec : Option Bytes
  pub no_cfproxy : Option Bytes
  pub no_worker_passthrough : Option Bytes
  pub cfproxy_max_attempts : Option Bytes
  pub worker : Settings
  pub proxy : Settings
  pub ws_pool_size : Option Bytes
  pub ws_pool_ttl_sec : Option Bytes
  pub cf_worker_pool_size : Option Bytes
  pub cf_worker_pool_ttl_sec : Option Bytes

-- The two pools hold sockets of type `W`.
pub record Daemon (W : Type 0) : Type 0 where
  pub routes : Routes
  pub learned : Learned
  pub fails : Fails
  pub fronting_fail : FrontingFail
  pub ws_blacklist : Blacklist
  pub workers : Workers
  pub cfproxy_429 : Cooldowns
  pub balancer : Balancer
  pub ws_slots : Slots W
  pub cf_slots : Slots W
  pub passthrough_warned : TtlMap Bytes
  pub no_data_logged : TtlMap Bytes

-- The counters of stats.rs that a session adds to.
pub data Stat : Type 0 where
  ws_pool_hit ws_direct fronting cf_worker cf_proxy tcp_fallback : Stat
