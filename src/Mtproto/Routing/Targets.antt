-- ===== src/Mtproto/Routing/Targets.antt =====
-- mtproto.rs: the addresses that are tried are addresses, each once.
use wrtg.Prelude.{
  ℕ, ◌≡◌, ◌⊎◌, inl, inr, refl, arith, Bool, true, false, not, ◌&&◌, ◌||◌, List, [], ◌∷◌, ◌++◌, any,
  Bool-cases,
}
use wrtg.Prelude.Int.{pos}
use wrtg.Prelude.Eq.{ℕ_eq, ℤ_eq, list_eq, =?_refl}
use wrtg.Prelude.Distinct.{elem, distinct, elem-append, distinct-snoc}
use wrtg.Prelude.Map
use wrtg.Prelude.Bytes.{Bytes, is_empty}
use wrtg.Mtproto.Handshake.{valid_dc}
use wrtg.Mtproto.Routing.{
  Routes, set_in, dc_default_ips, ws_target_ip, add_target, is_alt_ip, tcp_fallback_targets,
}

valid_numbers :
    (n : ℕ)
    → valid_dc (pos n) ≡ true
    → (n ≡ 1) ⊎ ((n ≡ 2) ⊎ ((n ≡ 3) ⊎ ((n ≡ 4) ⊎ ((n ≡ 5) ⊎ (n ≡ 203)))))
unfolding valid_dc
valid_numbers n h = ground arith

-- Each of them has an address of its own.
default_number :
    (n : ℕ) → valid_dc (pos n) ≡ true → is_empty (set_in dc_default_ips (pos n)) ≡ false
unfolding Map.get
default_number n h = elim (valid_numbers n h) [
  | inl e ↦ rw e refl
  | inr (inl e) ↦ rw e refl
  | inr (inr (inl e)) ↦ rw e refl
  | inr (inr (inr (inl e))) ↦ rw e refl
  | inr (inr (inr (inr (inl e)))) ↦ rw e refl
  | inr (inr (inr (inr (inr e)))) ↦ rw e refl
]

pub ws_target_ip-some :
    (r : Routes) (n : ℕ) (orig_ip : Bytes)
    → valid_dc (pos n) ≡ true
    → is_empty (ws_target_ip r (pos n) orig_ip) ≡ false
unfolding ws_target_ip
ws_target_ip-some r n orig_ip h = ground (arith, default_number n h)

-- What each target list has.
abbrev Clean : List Bytes → Type 0
Clean out = (any is_empty out ≡ false) × (distinct out ≡ true)

none_empty-snoc :
    (out : List Bytes) (ip : Bytes)
    → any is_empty out ≡ false
    → is_empty ip ≡ false
    → any is_empty (out ++ (ip ∷ [])) ≡ false
none_empty-snoc [] ip h e = ground (arith, e)
none_empty-snoc (d ∷ out) ip h e = ground (arith, none_empty-snoc out ip)

Clean-add_target : (out : List Bytes) (ip : Bytes) → Clean out → Clean (add_target out ip)
unfolding add_target
Clean-add_target out ip h = elim (Bool-cases (is_empty ip || elem ip out)) [
  | inl e ↦ rw e h
  | inr e ↦
      let full : is_empty ip ≡ false = ground (arith, e) in
      let new : elem ip out ≡ false = ground (arith, e) in
      rw e (none_empty-snoc out ip h.0 full, distinct-snoc out ip h.1 new)
]

elem-add_target :
    (out : List Bytes) (ip : Bytes) → is_empty ip ≡ false → elem ip (add_target out ip) ≡ true
unfolding add_target
elem-add_target out ip h = ground (arith, h, elem-append ip out (ip ∷ []), =?_refl ip)

elem-add_target_old :
    (out : List Bytes) (ip d : Bytes) → elem d out ≡ true → elem d (add_target out ip) ≡ true
unfolding add_target
elem-add_target_old out ip d h = ground (arith, h, elem-append d out (ip ∷ []))

-- For a valid datacenter the addresses to dial over TCP always contain the target of its
-- WebSocket; none of them is empty, and none is dialled twice, whatever the configuration, the
-- original destination and the flags are.
pub tcp_fallback_targets_lem :
    (r : Routes) (n : ℕ) (orig_ip : Bytes) (is_media blocked_cdn ws_blacklisted : Bool)
    → valid_dc (pos n) ≡ true
    → (elem
          (ws_target_ip r (pos n) orig_ip)
          (tcp_fallback_targets r (pos n) orig_ip is_media blocked_cdn ws_blacklisted)
        ≡ true)
      × ((any is_empty (tcp_fallback_targets r (pos n) orig_ip is_media blocked_cdn ws_blacklisted)
            ≡ false)
          × (distinct (tcp_fallback_targets r (pos n) orig_ip is_media blocked_cdn ws_blacklisted)
              ≡ true))
unfolding tcp_fallback_targets
tcp_fallback_targets_lem r n orig_ip is_media blocked_cdn ws_blacklisted h =
    let target = ws_target_ip r (pos n) orig_ip in
    let full = ws_target_ip-some r n orig_ip h in
    let first = Clean-add_target [] target (refl, refl) in
    let orig = Clean-add_target [] orig_ip (refl, refl) in
    elim (Bool-cases (is_media && ws_blacklisted)) [
      | inl e ↦ elim (Bool-cases (not (is_empty orig_ip) && is_alt_ip orig_ip)) [
        | inl q ↦
            rw (tcp_fallback_targets, e, q)
              (
                elem-add_target_old (add_target [] target) orig_ip target
                    (elem-add_target [] target full),
                Clean-add_target (add_target [] target) orig_ip first,
              )
        | inr q ↦ rw (tcp_fallback_targets, e, q) (elem-add_target [] target full, first)
      ]
      | inr e ↦
          elim (Bool-cases
            (is_media && (not (is_empty orig_ip) && (not blocked_cdn && is_alt_ip orig_ip)))) [
              | inl q ↦
                  rw (tcp_fallback_targets, e, q)
                    (
                      elem-add_target (add_target [] orig_ip) target full,
                      Clean-add_target (add_target [] orig_ip) target orig,
                    )
              | inr q ↦ rw (tcp_fallback_targets, e, q) (elem-add_target [] target full, first)
            ]
    ]
