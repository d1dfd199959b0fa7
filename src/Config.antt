-- ===== src/Config.antt =====
-- crates/wrtg/src/config.rs: the configuration from the environment or from the file, and the reload.
-- A lookup of a key is a function. The text of the file is an argument, `none` where it cannot be read. White space
-- and case are those of ASCII.
pub mod Lines
pub mod Reload
mod Examples
use wrtg.Prelude.{
  ℕ, ◌-◌, ◌+◌, Bool, true, false, not, ◌&&◌, ◌||◌, Option, none, some, List, [], ◌∷◌, ◌++◌, ltb,
  leb, ◌==◌, if◌then◌else◌, length, take, drop, any, keep,
}
use wrtg.Prelude.Int.{ℤ, pos, le_ℤ}
use wrtg.Prelude.Eq.{ℕ_eq, ℤ_eq, list_eq, ◌=?◌}
use wrtg.Prelude.Map
use wrtg.Prelude.Map.{Map}
use wrtg.Prelude.Bytes.{
  Bytes, bytes, is_empty, is_whitespace, trim, lowercase, split_at, starts_with, ends_with,
  is_ascii_digit,
}
use wrtg.Prelude.Durations.{unwrap_or}
use wrtg.Mtproto.Routing.{Routes, decimal, set_front_ip, set_dc_front_ips, set_front_dcs}
use wrtg.DcLearn.{Learned, parse_i32, load}
use wrtg.CfBalancer.{
  Balancer, trim_matches, parse_domain_list, set_proxy_domains, set_worker_domains,
  cf_fallback_disabled,
}
use wrtg.CfProxyDomains.{
  cfproxy_auto_decision, default_cfproxy_domains, normalize_domain_pool, is_ascii_alphabetic,
}

pub record WrtgConfig : Type 0 where
  pub listen_addr : Bytes
  pub front_ip : Bytes
  pub dc_front_ips : Map ℤ Bytes
  pub front_dcs : List ℤ
  pub cf_worker_domains : List Bytes
  pub cf_proxy_domains : List Bytes

abbrev pub Get : Type 0
Get = Bytes → Option Bytes

abbrev pub or_else : Option Bytes → Option Bytes → Option Bytes
or_else none other = other
or_else (some v) other = some v

-- `v.trim().trim_matches('\r').trim()`
abbrev pub bare : Bytes → Bytes
bare v = trim (trim_matches 13 (trim v))

-- `sort_unstable` with `dedup`: a number that is there is not put in again.
unfoldable pub put_in : ℤ → List ℤ → List ℤ
put_in dc [] = dc ∷ []
put_in dc (d ∷ dcs) =
    let rest = put_in dc dcs in
    if dc =? d then d ∷ dcs else if le_ℤ dc d then dc ∷ d ∷ dcs else d ∷ rest

unfoldable pub sorted_set : List ℤ → List ℤ
sorted_set [] = []
sorted_set (dc ∷ dcs) = put_in dc (sorted_set dcs)

-- `(1..=5).contains(dc) || *dc == 203`
abbrev pub is_front_dc : ℤ → Bool
is_front_dc dc = (le_ℤ (pos 1) dc && le_ℤ dc (pos 5)) || dc =? pos 203

unfoldable pub dcs_of : List Bytes → List ℤ
dcs_of [] = []
dcs_of (s ∷ parts) = elim (parse_i32 (trim s)) [
  | none ↦ dcs_of parts
  | some dc ↦ let rest = dcs_of parts in if is_front_dc dc then dc ∷ rest else rest
]

unfoldable pub parse_front_dcs : Bytes → List ℤ
parse_front_dcs raw =
    let v = bare raw in
    if lowercase v =? bytes "all" || v =? bytes "*"
    then pos 1 ∷ pos 2 ∷ pos 3 ∷ pos 4 ∷ pos 5 ∷ []
    else if is_empty v || lowercase v =? bytes "none"
    then []
    else sorted_set (dcs_of (split_at (λ c. c == b',' || (c == b';' || c == b' ')) v))

unfoldable pub load_front_dcs_with : Get → List ℤ
load_front_dcs_with get = elim (get (bytes "WRTG_FRONT_DCS")) [
  | none ↦ pos 2 ∷ pos 4 ∷ []
  | some v ↦ if not (is_empty (bare v)) then parse_front_dcs v else pos 2 ∷ pos 4 ∷ []
]

abbrev pub domains_at : Option Bytes → List Bytes
domains_at none = []
domains_at (some v) = parse_domain_list v

unfoldable pub load_worker_domains_with : Get → List Bytes
load_worker_domains_with get = normalize_domain_pool (
    domains_at (get (bytes "CF_WORKER_DOMAIN"))
    ++ domains_at (get (bytes "WRTG_CF_WORKER_DOMAINS")))

unfoldable pub load_proxy_domains_with : Get → List Bytes
load_proxy_domains_with get =
    normalize_domain_pool (
      domains_at (get (bytes "CF_PROXY_DOMAIN"))
      ++ domains_at (get (bytes "WRTG_CF_PROXY_DOMAINS")))

-- `s.split_once(c)`
unfoldable pub split_once_at : ℕ → Bytes → Option (Bytes × Bytes)
split_once_at d [] = none
split_once_at d (c ∷ s) =
    if c == d
    then some ([], s)
    else (elim (split_once_at d s) [ none ↦ none | some (a, b) ↦ some (c ∷ a, b) ])

-- An address that is not empty.
abbrev pub insert_ip : Map ℤ Bytes → ℤ → Bytes → Map ℤ Bytes
insert_ip ips dc raw =
    let ip = trim_matches 13 (trim raw) in if is_empty ip then ips else Map.insert ips dc ip

abbrev pub insert_part : Map ℤ Bytes → Option (Bytes × Bytes) → Map ℤ Bytes
insert_part ips none = ips
insert_part ips (some (dc_s, ip)) = elim (parse_i32 (trim dc_s)) [
  | none ↦ ips
  | some dc ↦ insert_ip ips dc ip
]

unfoldable pub insert_parts : Map ℤ Bytes → List Bytes → Map ℤ Bytes
insert_parts ips [] = ips
insert_parts ips (part ∷ parts) =
    insert_parts (insert_part ips (split_once_at b':' (trim part))) parts

abbrev pub insert_at : Map ℤ Bytes → ℤ → Option Bytes → Map ℤ Bytes
insert_at ips dc none = ips
insert_at ips dc (some ip) = insert_ip ips dc ip

unfoldable pub insert_keys : Get → Map ℤ Bytes → List ℤ → Map ℤ Bytes
insert_keys get ips [] = ips
insert_keys get ips (dc ∷ dcs) =
    insert_keys get (insert_at ips dc (get (bytes "DC" ++ (decimal dc ++ bytes "_FRONT_IP")))) dcs

unfoldable pub parse_dc_front_ips_with : Get → Map ℤ Bytes
parse_dc_front_ips_with get =
    let listed = insert_parts [] (elim (get (bytes "WRTG_DC_IPS")) as (λ o. List Bytes) [
      | none ↦ []
      | some raw ↦ split_at (λ c. c == b',' || c == b';') raw
    ]) in
    insert_keys get listed (pos 1 ∷ pos 2 ∷ pos 3 ∷ pos 4 ∷ pos 5 ∷ pos 203 ∷ [])

unfoldable pub load_from : Get → WrtgConfig
load_from get = record {
  listen_addr = trim_matches 13 (unwrap_or (get (bytes "WRTG_LISTEN")) (bytes "0.0.0.0:8443"));
  front_ip = trim (
      trim_matches 13 (
        unwrap_or
          (or_else (get (bytes "WRTG_FRONT_IP"))
            (or_else (get (bytes "FRONT_IP")) (get (bytes "TG_TPROXY_FRONT_IP"))))
          (bytes "149.154.167.220")));
  dc_front_ips = parse_dc_front_ips_with get;
  front_dcs = load_front_dcs_with get;
  cf_worker_domains = load_worker_domains_with get;
  cf_proxy_domains = load_proxy_domains_with get;
}

unfoldable pub load_from_map : Map Bytes Bytes → WrtgConfig
load_from_map m = load_from (Map.get m)

unfoldable pub apply_config : WrtgConfig → Routes × Balancer → Routes × Balancer
apply_config cfg (r, b) = (
  set_front_dcs (set_dc_front_ips (set_front_ip r cfg.front_ip) cfg.dc_front_ips) cfg.front_dcs,
  set_proxy_domains (set_worker_domains b cfg.cf_worker_domains) cfg.cf_proxy_domains,
)

abbrev pub is_key_char : ℕ → Bool
is_key_char c = is_ascii_alphabetic c || (is_ascii_digit c || c == b'_')

abbrev pub is_key : Bytes → Bool
is_key key = not (is_empty key) && not (any (λ c. not (is_key_char c)) key)

abbrev pub first_word : List Bytes → Bytes
first_word [] = []
first_word (w ∷ ws) = if is_empty w then first_word ws else w

-- `(raw.starts_with(q) && raw.ends_with(q))`
abbrev pub quoted_by : Bytes → Bytes → Bool
quoted_by q raw = starts_with raw q && ends_with raw q

unfoldable pub unquoted : Bytes → Bytes
unquoted raw =
    if leb 2 (length raw) && (quoted_by (bytes "\"") raw || quoted_by (bytes "'") raw)
    then take (length raw - 2) (drop 1 raw)
    else first_word (split_at is_whitespace raw)

abbrev pub key_value : Option (Bytes × Bytes) → Option (Bytes × Bytes)
key_value none = none
key_value (some (key, raw)) =
    if is_key (trim key) then some (trim key, unquoted (trim raw)) else none

unfoldable pub parse_kv_line : Bytes → Option (Bytes × Bytes)
parse_kv_line text =
    let line = trim text in
    if is_empty line || starts_with line (bytes "#")
    then none
    else key_value (split_once_at b'=' line)

unfoldable pub import_lines : Map Bytes Bytes → List Bytes → Map Bytes Bytes
import_lines m [] = m
import_lines m (line ∷ lines) = elim (parse_kv_line line) [
  | none ↦ import_lines m lines
  | some (key, val) ↦ import_lines (Map.insert m key val) lines
]

-- The return before a line feed is white space at the end of its line.
unfoldable pub import_config_file : Option Bytes → Map Bytes Bytes
import_config_file none = []
import_config_file (some text) = import_lines [] (split_at (λ c. c == 10) text)

unfoldable pub proxy_pool_after_reload : List Bytes → List Bytes → Bool → List Bytes
proxy_pool_after_reload file_domains live_pool auto =
    if not (is_empty file_domains) || not auto
    then file_domains
    else if is_empty live_pool
    then default_cfproxy_domains
    else live_pool

-- `no_cfproxy` is read from the environment; the two files are those of dc_learn.rs.
unfoldable pub reload_from_file :
    Option Bytes
    → Option Bytes
    → Option Bytes
    → Option Bytes
    → Routes × (Balancer × Learned)
    → Routes × (Balancer × Learned)
reload_from_file no_cfproxy text learn_file manual_file (r, (b, learned)) =
    let m = import_config_file text in
    let cfg = load_from_map m in
    let (r', b') = apply_config cfg (r, b) in
    let auto =
      not (cf_fallback_disabled no_cfproxy)
      && cfproxy_auto_decision (Map.get m (bytes "WRTG_CFPROXY_AUTO")) in
    let pool = proxy_pool_after_reload cfg.cf_proxy_domains b.proxy_domains auto in
    (r', (set_proxy_domains b' pool, load learned learn_file manual_file))
