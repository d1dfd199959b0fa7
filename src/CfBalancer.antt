-- ===== src/CfBalancer.antt =====
-- crates/wrtg/src/cf_balancer.rs: the Cloudflare domains and the order in which a datacenter tries
-- them. The statics are a record; each function is the sequence of its lock sections, run without
-- interruption.
pub mod Rotation
pub mod Sticky
mod Examples
use wrtg.Prelude.{
  ℕ, zero, suc, ◌+◌, ◌-◌, ◌%◌, ◌^◌, max, Bool, true, false, not, ◌&&◌, ◌||◌, Option, none, some,
  List, [], ◌∷◌, ◌++◌, ltb, ◌==◌, if◌then◌else◌, length, get_or, get_elem?, drop, any, keep, map,
}
use wrtg.Prelude.Int.{ℤ, pos}
use wrtg.Prelude.Eq.{Eq, ℕ_eq, ℤ_eq, list_eq, ◌=?◌}
use wrtg.Prelude.Map
use wrtg.Prelude.Map.{Map}
use wrtg.Prelude.Bytes.{
  Bytes, bytes, is_empty, trim, trim_start, trim_end, lowercase, starts_with, split_at,
}
use wrtg.Prelude.Durations.{unwrap_or}

pub record Balancer : Type 0 where
  pub worker_domains : List Bytes
  pub proxy_domains : List Bytes
  pub worker_rr : ℕ
  pub proxy_rr : ℕ
  pub dc_worker_idx : Map ℤ ℕ
  pub dc_proxy_idx : Map ℤ ℕ
  pub dc_proxy_sticky : Map ℤ Bytes

unfoldable pub set_worker_domains : Balancer → List Bytes → Balancer
set_worker_domains b domains = record b {
  worker_domains = domains;
  worker_rr = 0;
  dc_worker_idx = [];
}

unfoldable pub set_proxy_domains : Balancer → List Bytes → Balancer
set_proxy_domains b domains = record b { proxy_domains = domains }

-- `fetch_add(1)` on an `AtomicUsize` of 64 bits: the value before, and the one after.
abbrev pub fetch_add : ℕ → ℕ × ℕ
fetch_add rr = (rr, (rr + 1) % 2 ^ 64)

-- `map.entry(dc).or_insert_with(|| rr.fetch_add(1) % len)`: the entry, the map and the counter.
unfoldable pub cursor : ℤ → ℕ → Map ℤ ℕ → ℕ → ℕ × (Map ℤ ℕ × ℕ)
cursor dc len dc_map rr = elim (Map.get dc_map dc) [
  | some idx ↦ (idx, (dc_map, rr))
  | none ↦ let (n, rr') = fetch_add rr in (n % len, (Map.insert dc_map dc (n % len), rr'))
]

-- The loop of `ordered_domains`, from `i` on with `n` rounds to go.
unfoldable pub push_from : List Bytes → ℕ → ℕ → ℕ → List Bytes
push_from domains start i zero = []
push_from domains start i (suc n) =
    get_or domains ((start + i) % length domains) [] ∷ push_from domains start (suc i) n

unfoldable pub ordered_domains : List Bytes → ℤ → Map ℤ ℕ → ℕ → List Bytes × (Map ℤ ℕ × ℕ)
ordered_domains domains dc dc_map rr =
    if is_empty domains
    then ([], (dc_map, rr))
    else if length domains == 1
    then (domains, (dc_map, rr))
    else (let (idx, statics) = cursor dc (length domains) dc_map rr in
        (push_from domains (idx % length domains) 0 (length domains), statics))

unfoldable pub worker_domains_for_dc : Balancer → ℤ → Balancer × List Bytes
worker_domains_for_dc b dc =
    let (ordered, (dc_map, rr)) = ordered_domains b.worker_domains dc b.dc_worker_idx b.worker_rr in
    (record b { dc_worker_idx = dc_map; worker_rr = rr }, ordered)

-- The loop that appends each domain that is not there yet.
unfoldable pub push_new : List Bytes → List Bytes → List Bytes
push_new out [] = out
push_new out (d ∷ ordered) =
    push_new (if any (λ x. x =? d) out then out else out ++ (d ∷ [])) ordered

unfoldable pub proxy_domains_for_dc : Balancer → ℤ → Balancer × List Bytes
proxy_domains_for_dc b dc =
    let (ordered, (dc_map, rr)) = ordered_domains b.proxy_domains dc b.dc_proxy_idx b.proxy_rr in
    (
      record b { dc_proxy_idx = dc_map; proxy_rr = rr },
      elim (Map.get b.dc_proxy_sticky dc) [
        | none ↦ ordered
        | some sticky ↦
            if any (λ d. d =? sticky) b.proxy_domains
            then push_new (sticky ∷ []) ordered
            else ordered
      ],
    )

unfoldable pub update_proxy_domain_for_dc : Balancer → ℤ → Bytes → Balancer
update_proxy_domain_for_dc b dc text =
    let domain = lowercase (trim text) in
    if is_empty domain
    then b
    else if elim (Map.get b.dc_proxy_sticky dc) [ none ↦ false | some d ↦ d =? domain ]
    then b
    else record b { dc_proxy_sticky = Map.insert b.dc_proxy_sticky dc domain }

abbrev same : Option Bytes → Option Bytes → Bool
same none none = true
same (some a) (some b) = a =? b
same _ _ = false

unfoldable pub advance_proxy_domains_for_dc : Balancer → ℤ → ℕ → Balancer
advance_proxy_domains_for_dc b dc by =
    let sticky = Map.get b.dc_proxy_sticky dc in
    let len = max (length b.proxy_domains) 1 in
    let (idx, (dc_map, rr)) = cursor dc len b.dc_proxy_idx b.proxy_rr in
    let idx' = (idx + by) % len in
    record b {
      dc_proxy_sticky = Map.remove b.dc_proxy_sticky dc;
      dc_proxy_idx =
          Map.insert dc_map dc
            (if same (get_elem? b.proxy_domains idx') sticky then (idx' + 1) % len else idx');
      proxy_rr = rr;
    }

unfoldable pub dcs_without_fallback : List ℤ → ℕ → ℕ → List ℤ
dcs_without_fallback front_dcs workers proxies =
    if ltb 0 workers || ltb 0 proxies
    then []
    else keep (λ dc. not (any (λ d. d =? dc) front_dcs)) (map pos (1 ∷ 2 ∷ 3 ∷ 4 ∷ 5 ∷ []))

-- `s.split_once(p)`: what stands behind the first `p`.
unfoldable pub after_once : Bytes → Bytes → Option Bytes
after_once [] p = if is_empty p then some [] else none
after_once (c ∷ s) p =
    if starts_with (c ∷ s) p then some (drop (length p) (c ∷ s)) else after_once s p

abbrev first_piece : List Bytes → Bytes → Bytes
first_piece [] s = s
first_piece (piece ∷ pieces) s = piece

unfoldable pub sanitize_domain : Bytes → Bytes
unfolding after_once trim trim_end split_at
sanitize_domain text =
    let s = unwrap_or (after_once (trim text) (bytes "://")) (trim text) in
    trim_end (λ c. c == b'.')
      (trim (first_piece (split_at (λ c. c == b'/' || (c == b'?' || c == b'#')) s) s))

-- `s.trim_matches(c)`
abbrev pub trim_matches : ℕ → Bytes → Bytes
trim_matches c s = trim_end (λ d. d == c) (trim_start (λ d. d == c) s)

abbrev not_empty : Bytes → Bool
not_empty s = not (is_empty s)

unfoldable pub parse_domain_list : Bytes → List Bytes
unfolding sanitize_domain
parse_domain_list raw = keep not_empty (
    map sanitize_domain (
      keep not_empty (
        map (λ s. trim_matches b'\r' (trim_matches b'"' (trim s)))
          (split_at (λ c. c == b',' || (c == b';' || c == b' ')) raw))))

-- `v == "1" || v.eq_ignore_ascii_case("true")`
abbrev pub is_set : Option Bytes → Bool
is_set none = false
is_set (some v) = v =? bytes "1" || lowercase v =? bytes "true"

-- `WRTG_NO_CFPROXY`
unfoldable pub cf_fallback_disabled : Option Bytes → Bool
cf_fallback_disabled env = is_set env

-- `WRTG_NO_WORKER_PASSTHROUGH`
unfoldable pub worker_passthrough_disabled : Option Bytes → Bool
worker_passthrough_disabled env = is_set env
