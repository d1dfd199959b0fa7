-- ===== src/WsBlacklist.antt =====
-- crates/wrtg/src/ws_blacklist.rs: the per-DC WebSocket blacklist. The static map is an argument.
use wrtg.Prelude.{ℕ, Bool, Option}
use wrtg.Prelude.Int.{ℤ}
use wrtg.Prelude.Eq.{ℤ_eq, Bool_eq, pair_eq}
use wrtg.Prelude.Bytes.{Bytes}
use wrtg.Prelude.Durations.{from_secs, env_secs, unwrap_or}
use wrtg.TtlMap
use wrtg.TtlMap.{TtlMap}

-- Keyed by `(dc, is_media)`.
abbrev pub Blacklist : Type 0
Blacklist = TtlMap (ℤ × Bool)

-- From `WRTG_WS_BLACKLIST_TTL_SEC`; 45 minutes by default.
unfoldable pub blacklist_ttl : Option Bytes → ℕ
blacklist_ttl env = from_secs (unwrap_or (env_secs env) 2700)

unfoldable pub ws_blacklisted : Blacklist → ℤ → Bool → ℕ → Blacklist × Bool
ws_blacklisted m dc is_media now = TtlMap.is_active m (dc, is_media) now

unfoldable pub clear_ws_blacklisted : Blacklist → ℤ → Bool → Blacklist
clear_ws_blacklisted m dc is_media = (TtlMap.clear m (dc, is_media)).0

unfoldable pub mark_ws_blacklisted : ℕ → Blacklist → ℤ → Bool → ℕ → Blacklist
mark_ws_blacklisted ttl m dc is_media now = (TtlMap.mark_if_absent m (dc, is_media) ttl now).0
