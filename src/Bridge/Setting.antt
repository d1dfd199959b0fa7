-- ===== src/Bridge/Setting.antt =====
-- A daemon, its settings and a network for the examples of bridge.rs and main.rs.
use wrtg.Prelude.{ℕ, true, false, none, some, [], replicate}
use wrtg.Prelude.Int.{pos}
use wrtg.Prelude.Durations.{from_secs}
use wrtg.Prelude.Results.{ok}
use wrtg.Mtproto.Routing.{default_routes}
use wrtg.Mtproto.Handshake.{HandshakeInfo}
use wrtg.Mtproto.Constants.{proto_abridged_int}
use wrtg.Fronting.{out_of_time}
use wrtg.Bridge.State.{Env, Daemon}
use wrtg.Bridge.Direct.{Dialer, Clock}
use wrtg.Bridge.Fallback.{ProxyDialer}
use wrtg.Bridge.Session.{Net, Readings}

abbrev pub unset : Env
unset = record {
  ip = record {
    ip_fail_cooldown_sec = none;
    dc_fail_cooldown_sec = none;
    ws_fail_timeout_sec = none;
    ws_fail_timeout_fast_sec = none;
  };
  fronting_sni = none;
  fronting_cooldown_sec = none;
  ws_blacklist_ttl_sec = none;
  no_cfproxy = none;
  no_worker_passthrough = none;
  cfproxy_max_attempts = none;
  worker = record { base = from_secs 60; max = from_secs 900 };
  proxy = record { base = from_secs 45; max = from_secs 300 };
  ws_pool_size = none;
  ws_pool_ttl_sec = none;
  cf_worker_pool_size = none;
  cf_worker_pool_ttl_sec = none;
}

-- Just started: nothing learned, no failures, empty pools. Sockets are numbers.
abbrev pub started : Daemon ℕ
started = record {
  routes = default_routes;
  learned = [];
  fails = record { ip_fail = []; dc_fail = [] };
  fronting_fail = [];
  ws_blacklist = [];
  workers = record { cf_worker_429 = []; cf_worker_503 = [] };
  cfproxy_429 = [];
  balancer = record {
    worker_domains = [];
    proxy_domains = [];
    worker_rr = 0;
    proxy_rr = 0;
    dc_worker_idx = [];
    dc_proxy_idx = [];
    dc_proxy_sticky = [];
  };
  ws_slots = [];
  cf_slots = [];
  passthrough_warned = [];
  no_data_logged = [];
}

-- Every WebSocket runs out of time; TCP connects.
abbrev pub blocked : Dialer ℕ
blocked = record {
  pooled = λ ws. false;
  direct = λ limit target domain. out_of_time;
  fronted = λ limit target domain. out_of_time;
}

abbrev pub proxies : ProxyDialer ℕ
proxies = record {
  late = λ domain. false;
  connect = λ dial_host sni_host. ok 7;
  resolve_doh = λ host. none;
  send = λ ws. true;
}

abbrev pub tcp_only : Net ℕ
tcp_only = record {
  ws = blocked;
  cf = record { pooled = λ ws. false; worker = λ worker dst. out_of_time; proxy = proxies };
  tcp_dial = λ limit dst. some true;
}

abbrev pub ws_clock : Clock
ws_clock = record { started = 5; gate = 6; front_failed = 7; given_up = 8 }

abbrev pub readings : Readings
readings = record {
  blacklist = 3;
  skip = 4;
  ws = ws_clock;
  redirected = 9;
  cf = record { started = 10; worker = λ i. 11; primary_asked = 12; primary_done = 13; ended = [] };
  tcp_started = 14;
  tcp_asked = λ i. 15;
  tcp_ended = λ i. 16;
}

abbrev pub hello : HandshakeInfo
hello = record {
  dc = pos 2;
  is_media = false;
  dc_in_pkt = true;
  proto_int = proto_abridged_int;
  handshake = replicate 64 7;
}
