-- ===== src/CfProxyDomains/Examples.antt =====
-- cf_proxy_domains.rs: a list as it is published, and what becomes of it.
use wrtg.Prelude.{◌≡◌, ◌⊎◌, Option, none, some, List, [], ◌∷◌, ◌++◌}
use wrtg.Prelude.Eq.{ℕ_eq, list_eq}
use wrtg.Prelude.Bytes.{Bytes, bytes}
use wrtg.CfBalancer.{Balancer}
use wrtg.CfProxyDomains.{Settings, decode_cfproxy_domain, refresh_cfproxy_domains}
use wrtg.CfProxyDomains.Caesar.{encode_domain, decode_cfproxy_domain-encode_domain}
use wrtg.CfProxyDomains.Pool.{IsUsable, IsWanted, refresh_cfproxy_domains_safe}

decode_cfproxy_domain-encode_domain_example :
    decode_cfproxy_domain (encode_domain (bytes "Tg-7.relay"))
    ≡ bytes "Tg-7.relay" ++ bytes ".co.uk"
decode_cfproxy_domain-encode_domain_example =
    decode_cfproxy_domain-encode_domain (bytes "Tg-7.relay")

abbrev unset : Settings
unset = record {
  no_cfproxy = none;
  cf_proxy_domain = none;
  cf_proxy_domains = none;
  cfproxy_auto = none;
  cfproxy_domains_url_set = none;
}

abbrev balancer : Balancer
balancer = record {
  worker_domains = [];
  proxy_domains = bytes "old.co.uk" ∷ [];
  worker_rr = 0;
  proxy_rr = 0;
  dc_worker_idx = [];
  dc_proxy_idx = [];
  dc_proxy_sticky = [];
}

abbrev https_get : Bytes → Bytes → Option Bytes
https_get host path = some (bytes "# list\nvirkgj.com\r\nvmmzovy.com\nmkuosckvso.com\n")

refresh_cfproxy_domains_safe_example :
    (refresh_cfproxy_domains https_get unset balancer (bytes "abc1234") ≡ balancer)
    ⊎ (IsWanted unset
        × (pool : List Bytes) × (refresh_cfproxy_domains https_get unset balancer (bytes "abc1234")
            ≡ record balancer { proxy_domains = pool })
        × IsUsable pool)
refresh_cfproxy_domains_safe_example =
    refresh_cfproxy_domains_safe https_get unset balancer (bytes "abc1234")
