-- ===== src/Config/Reload.antt =====
-- config.rs: what a reload leaves.
use wrtg.Prelude.{◌≡◌, refl, ap, Bool, true, false, not, ◌&&◌, Option, List, [], ◌∷◌}
use wrtg.Prelude.Map
use wrtg.Prelude.Eq.{ℕ_eq, list_eq}
use wrtg.Prelude.Bytes.{Bytes, bytes, is_empty}
use wrtg.Mtproto.Routing.{Routes, set_front_ip, set_dc_front_ips, set_front_dcs}
use wrtg.DcLearn.{Learned, load}
use wrtg.CfBalancer.{Balancer, set_proxy_domains, set_worker_domains, cf_fallback_disabled}
use wrtg.CfProxyDomains.{cfproxy_auto_decision, default_cfproxy_domains}
use wrtg.Config.{
  load_from_map, apply_config, import_config_file, proxy_pool_after_reload, reload_from_file,
}

-- Whether the shared pool is wanted: by the environment, and by the file.
abbrev pub wants_pool : Option Bytes → Option Bytes → Bool
wants_pool no_cfproxy text =
    not (cf_fallback_disabled no_cfproxy)
    && cfproxy_auto_decision (Map.get (import_config_file text) (bytes "WRTG_CFPROXY_AUTO"))

defaults_there : is_empty default_cfproxy_domains ≡ false
unfolding default_cfproxy_domains
defaults_there = refl

pool_kept :
    (file live : List Bytes) (auto : Bool)
    → proxy_pool_after_reload file (proxy_pool_after_reload file live auto) auto
      ≡ proxy_pool_after_reload file live auto
unfolding proxy_pool_after_reload
pool_kept (d ∷ file) live auto = refl
pool_kept [] live false = refl
pool_kept [] [] true = rw (defaults_there) refl
pool_kept [] (d ∷ live) true = refl

pool_there :
    (file live : List Bytes) (auto : Bool)
    → (auto && is_empty (proxy_pool_after_reload file live auto)) ≡ false
unfolding proxy_pool_after_reload
pool_there (d ∷ file) live false = refl
pool_there (d ∷ file) live true = refl
pool_there [] live false = refl
pool_there [] [] true = defaults_there
pool_there [] (d ∷ live) true = refl

-- A second reload of the same files changes nothing: not the front, the domains, the cursors, the pool that was
-- fetched or the learned addresses; and where the shared pool is wanted, no reload leaves the proxied domains empty, also where the file
-- names none.
pub reload_from_file_lem :
    (no_cfproxy text learn_file manual_file : Option Bytes) (s : Routes × (Balancer × Learned))
    → (reload_from_file no_cfproxy text learn_file manual_file
          (reload_from_file no_cfproxy text learn_file manual_file s)
        ≡ reload_from_file no_cfproxy text learn_file manual_file s)
      × ((wants_pool no_cfproxy text
            && is_empty
                (reload_from_file no_cfproxy text learn_file manual_file s).1.0.proxy_domains)
          ≡ false)
unfolding load reload_from_file apply_config set_proxy_domains set_worker_domains set_front_ip
    set_dc_front_ips set_front_dcs
reload_from_file_lem no_cfproxy text learn_file manual_file (r, (b, learned)) =
    let file = (load_from_map (import_config_file text)).cf_proxy_domains in
    let (r', (b', learned')) =
      reload_from_file no_cfproxy text learn_file manual_file (r, (b, learned)) in
    (
      ap (λ pool. (r', (record b' { proxy_domains = pool }, learned')))
          (pool_kept file b.proxy_domains (wants_pool no_cfproxy text)),
      pool_there file b.proxy_domains (wants_pool no_cfproxy text),
    )
