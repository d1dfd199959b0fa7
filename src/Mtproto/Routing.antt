-- ===== src/Mtproto/Routing.antt =====
-- mtproto.rs: which address and which names a datacenter is reached under.
-- The three statics are a record; the tables are association lists.
pub mod Targets
use wrtg.Prelude.{
  zero, suc, ◌+◌, ◌/◌, ◌%◌, ◌==◌, ℕ, Bool, true, false, not, ◌&&◌, ◌||◌, Option, none, some, List,
  [], ◌∷◌, ◌++◌, if◌then◌else◌, any, map,
}
use wrtg.Prelude.Int.{ℤ, pos, negsuc}
use wrtg.Prelude.Eq.{ℕ_eq, ℤ_eq, list_eq, ◌=?◌}
use wrtg.Prelude.Map
use wrtg.Prelude.Map.{Map}
use wrtg.Prelude.Bytes.{Bytes, bytes, is_empty}
use wrtg.Prelude.Durations.{unwrap_or}

pub record Routes : Type 0 where
  pub front_ip : Bytes
  pub dc_front_ips : Map ℤ Bytes
  pub front_dcs : List ℤ

-- What the statics hold before a configuration is read.
unfoldable pub default_routes : Routes
default_routes = record {
  front_ip = bytes "149.154.167.220";
  dc_front_ips = [];
  front_dcs = pos 2 ∷ pos 4 ∷ [];
}

unfoldable pub set_front_dcs : Routes → List ℤ → Routes
set_front_dcs r dcs = record r { front_dcs = dcs }

unfoldable pub set_front_ip : Routes → Bytes → Routes
set_front_ip r ip = record r { front_ip = ip }

unfoldable pub set_dc_front_ips : Routes → Map ℤ Bytes → Routes
set_dc_front_ips r ips = record r { dc_front_ips = ips }

unfoldable pub set_dc_front_ip : Routes → ℤ → Bytes → Routes
set_dc_front_ip r dc ip = record r { dc_front_ips = Map.insert r.dc_front_ips dc ip }

-- `if dc == 203 { 2 } else { dc }`
abbrev pub folded : ℤ → ℤ
folded dc = if dc =? pos 203 then pos 2 else dc

unfoldable pub front_applies_to_dc : Routes → ℤ → Bool
front_applies_to_dc r dc = any (λ d. d =? folded dc) r.front_dcs

-- An entry that is there and not empty.
abbrev pub set_in : Map ℤ Bytes → ℤ → Bytes
set_in ips dc = unwrap_or (Map.get ips dc) []

unfoldable pub dc_front_ip : Routes → ℤ → Bytes
dc_front_ip r dc =
    if not (is_empty (set_in r.dc_front_ips (folded dc)))
    then set_in r.dc_front_ips (folded dc)
    else if not (is_empty (set_in r.dc_front_ips dc))
    then set_in r.dc_front_ips dc
    else if front_applies_to_dc r dc
    then r.front_ip
    else []

abbrev pub dc_default_ips : Map ℤ Bytes
dc_default_ips =
    (pos 1, bytes "149.154.175.50")
    ∷ (pos 2, bytes "149.154.167.51")
    ∷ (pos 3, bytes "149.154.175.100")
    ∷ (pos 4, bytes "149.154.167.91")
    ∷ (pos 5, bytes "149.154.171.5")
    ∷ (pos 203, bytes "91.105.192.100")
    ∷ []

unfoldable pub dc_default_ip : ℤ → Option Bytes
dc_default_ip dc = Map.get dc_default_ips (folded dc)

-- Each address with its datacenter and whether it serves media.
abbrev pub dc_alt_ips : Map Bytes (ℤ × Bool)
dc_alt_ips =
    (bytes "149.154.162.123", (pos 2, true))
    ∷ (bytes "149.154.175.211", (pos 1, true))
    ∷ (bytes "149.154.171.255", (pos 5, true))
    ∷ (bytes "91.108.56.155", (pos 5, true))
    ∷ (bytes "149.154.175.58", (pos 1, false))
    ∷ (bytes "149.154.175.53", (pos 1, false))
    ∷ (bytes "149.154.167.41", (pos 2, false))
    ∷ (bytes "149.154.167.50", (pos 2, false))
    ∷ (bytes "149.154.167.35", (pos 2, false))
    ∷ []

unfoldable pub ws_target_ip : Routes → ℤ → Bytes → Bytes
ws_target_ip r dc orig_ip =
    let front = dc_front_ip r dc in
    if not (is_empty front)
    then front
    else if not (is_empty orig_ip)
    then orig_ip
    else set_in dc_default_ips dc

unfoldable pub ws_redirect_blacklist_warranted : Routes → ℤ → Bytes → Bool
ws_redirect_blacklist_warranted r dc target_ip =
    let front = dc_front_ip r (folded dc) in
    if is_empty target_ip
    then true
    else if is_empty front || not (front =? target_ip)
    then true
    else target_ip =? r.front_ip && (folded dc =? pos 2 || folded dc =? pos 4)

-- The closure `add`.
unfoldable pub add_target : List Bytes → Bytes → List Bytes
add_target out ip = if is_empty ip || any (λ x. x =? ip) out then out else out ++ (ip ∷ [])

abbrev pub is_alt_ip : Bytes → Bool
is_alt_ip ip = elim (Map.get dc_alt_ips ip) [ none ↦ false | some entry ↦ true ]

unfoldable pub tcp_fallback_targets : Routes → ℤ → Bytes → Bool → Bool → Bool → List Bytes
tcp_fallback_targets r dc orig_ip is_media blocked_cdn ws_blacklisted =
    let target = ws_target_ip r dc orig_ip in
    if is_media && ws_blacklisted
    then (let out = add_target [] target in
        if not (is_empty orig_ip) && is_alt_ip orig_ip then add_target out orig_ip else out)
    else add_target
        (if is_media && (not (is_empty orig_ip) && (not blocked_cdn && is_alt_ip orig_ip))
          then add_target [] orig_ip
          else [])
        target

-- Decimal digits, on fuel; a number has no more digits than its value plus one.
abbrev pub decimal_digits : ℕ → ℕ → Bytes → Bytes
decimal_digits zero n acc = acc
decimal_digits (suc fuel) n acc =
    let rest = decimal_digits fuel (n / 10) ((b'0' + n % 10) ∷ acc) in
    if n / 10 == 0 then (b'0' + n % 10) ∷ acc else rest

abbrev pub decimal : ℤ → Bytes
decimal (pos n) = decimal_digits (suc n) n []
decimal (negsuc n) = b'-' ∷ decimal_digits (suc (suc n)) (suc n) []

unfoldable pub ws_domains : ℤ → Bool → List Bytes
ws_domains dc is_media =
    let base = bytes "kws" ++ (decimal (folded dc) ++ bytes ".web.telegram.org") in
    let media = bytes "kws" ++ (decimal (folded dc) ++ bytes "-1.web.telegram.org") in
    if is_media then media ∷ base ∷ [] else base ∷ media ∷ []

-- The loop over the default addresses.
abbrev pub default_of : Bytes → Map ℤ Bytes → Option (ℤ × Bool)
default_of ip [] = none
default_of ip ((id, addr) ∷ ips) = if addr =? ip then some (id, false) else default_of ip ips

unfoldable pub dc_from_hardcoded : Bytes → Option (ℤ × Bool)
dc_from_hardcoded ip = elim (Map.get dc_alt_ips ip) [
  | some entry ↦ some entry
  | none ↦ default_of ip dc_default_ips
]

-- `learned` is what `dc_learn::lookup` answers.
unfoldable pub dc_from_orig_dst : Bytes → Option (ℤ × Bool) → Option (ℤ × Bool)
dc_from_orig_dst ip learned = elim (dc_from_hardcoded ip) [
  | some known ↦ some known
  | none ↦ learned
]
