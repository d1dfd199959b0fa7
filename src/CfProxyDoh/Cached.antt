-- ===== src/CfProxyDoh/Cached.antt =====
-- cf_proxy_doh.rs: how long an address that was found is used.
use wrtg.Prelude.{
  ℕ, ◌+◌, ◌≡◌, refl, ap, ◌∙◌, Bool, true, false, inl, inr, Option, none, some, List, ltb,
  if◌then◌else◌, Option-cases,
}
use wrtg.Prelude.Eq.{ℕ_eq, list_eq, ◌=?◌}
use wrtg.Prelude.Map
use wrtg.Prelude.Map.{get-insert, get-insert_self}
use wrtg.Prelude.Bytes.{Bytes, is_empty, trim}
use wrtg.CfProxyDoh.{Cache, cached, first_answer, after_race, resolve_doh, doh_cache_ttl}

abbrev or_ask : Option Bytes → Option Bytes → Option Bytes
or_ask none answer = answer
or_ask (some ip) answer = some ip

by_time :
    (b : Bool) (ip answer : Option Bytes)
    → or_ask (if b then ip else none) answer ≡ (if b then or_ask ip answer else answer)
by_time true ip answer = refl
by_time false ip answer = refl

cached-insert :
    (cache : Cache) (domain ip : Bytes) (exp later : ℕ)
    → cached (Map.insert cache domain (ip, exp)) domain later
      ≡ (if ltb later exp then some ip else none)
unfolding cached
cached-insert cache domain ip exp later = rw (cached, get-insert_self cache domain (ip, exp)) refl

resolve_doh-answer :
    (ttl : Option Bytes) (cache : Cache) (name : Bytes) (now : ℕ)
    (answers : Bytes → List (Option Bytes)) (done : ℕ)
    → is_empty (trim name) ≡ false
    → (resolve_doh ttl cache name now answers done).1
      ≡ or_ask (cached cache (trim name) now) (first_answer (answers (trim name)))
unfolding resolve_doh after_race
resolve_doh-answer ttl cache name now answers done named =
    elim (Option-cases (cached cache (trim name) now)) [
      | inr (ip, q) ↦ rw (resolve_doh, named, q) refl
      | inl q ↦ elim (Option-cases (first_answer (answers (trim name)))) [
        | inl r ↦ rw (resolve_doh, named, q, r) refl
        | inr (ip, r) ↦ rw (resolve_doh, named, q, r) refl
      ]
    ]

found_cache :
    (ttl : Option Bytes) (cache : Cache) (name ip : Bytes) (now done : ℕ)
    (answers : Bytes → List (Option Bytes))
    → is_empty (trim name) ≡ false
    → cached cache (trim name) now ≡ none
    → first_answer (answers (trim name)) ≡ some ip
    → (resolve_doh ttl cache name now answers done).0
      ≡ Map.insert cache (trim name) (ip, done + doh_cache_ttl ttl)
unfolding resolve_doh after_race
found_cache ttl cache name ip now done answers named fresh found =
    rw (resolve_doh, named, fresh, found) refl

-- An address that the race finds is answered for the name, however it is padded, without another race until its time
-- has passed since it was found, and by another race from then on; what is known of other names stays.
pub resolve_doh_cached :
    (ttl : Option Bytes) (cache : Cache) (name ip : Bytes) (now done : ℕ)
    (answers : Bytes → List (Option Bytes))
    → is_empty (trim name) ≡ false
    → cached cache (trim name) now ≡ none
    → first_answer (answers (trim name)) ≡ some ip
    → (name' : Bytes) (later done' : ℕ) (answers' : Bytes → List (Option Bytes))
    → trim name' ≡ trim name
    → ((resolve_doh ttl cache name now answers done).1 ≡ some ip)
      × ((resolve_doh ttl
            (resolve_doh ttl cache name now answers done).0
            name'
            later
            answers'
            done').1
          ≡ (if ltb later (done + doh_cache_ttl ttl)
              then some ip
              else first_answer (answers' (trim name))))
      × ((other : Bytes)
          → Map.get (resolve_doh ttl cache name now answers done).0 other ≡ (
              if trim name =? other
              then some (ip, done + doh_cache_ttl ttl)
              else Map.get cache other))
resolve_doh_cached ttl cache name ip now done answers named fresh found name' later done' answers'
      same =
    let domain = trim name in
    let exp = done + doh_cache_ttl ttl in
    let next : (resolve_doh ttl cache name now answers done).0 ≡ Map.insert cache domain (ip, exp) =
      found_cache ttl cache name ip now done answers named fresh found in
    (
      resolve_doh-answer ttl cache name now answers done named ∙ rw (fresh) found,
      rw (next, ← same)
          (resolve_doh-answer ttl (Map.insert cache (trim name') (ip, exp)) name' later answers'
              done' (ap is_empty same ∙ named)
            ∙ ap (λ o. or_ask o (first_answer (answers' (trim name'))))
                (cached-insert cache (trim name') ip exp later)
            ∙ by_time (ltb later exp) (some ip) (first_answer (answers' (trim name')))),
      λ other. rw (next) (get-insert cache domain (ip, exp) other),
    )
