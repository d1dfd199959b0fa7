-- ===== src/CfBalancer/Sticky.antt =====
-- cf_balancer.rs, `proxy_domains_for_dc`: the domain that worked last comes first.
use wrtg.Prelude.{
  ℕ, ◌≡◌, inl, inr, refl, ap, ◌∙◌, arith, true, ◌||◌, Option, none, some, List, [], ◌∷◌, ◌++◌,
  length, take, drop, take-append-drop, Bool-cases,
}
use wrtg.Prelude.Int.{ℤ}
use wrtg.Prelude.Eq.{ℕ_eq, ℤ_eq, list_eq, =?_iff}
use wrtg.Prelude.Distinct.{elem, distinct, elem-append, distinct-snoc}
use wrtg.Prelude.Map
use wrtg.Prelude.Map.{Map}
use wrtg.Prelude.Bytes.{Bytes}
use wrtg.CfBalancer.{Balancer, ordered_domains, push_new, proxy_domains_for_dc}
use wrtg.CfBalancer.Rotation.{turn_of, ordered_domains_lem}

elem-push_new :
    (d : Bytes) (out ordered : List Bytes)
    → elem d (push_new out ordered) ≡ (elem d out || elem d ordered)
unfolding push_new
elem-push_new d out [] = ground arith
elem-push_new d out (x ∷ ordered) = elim (Bool-cases (elem x out)) [
  | inl e ↦ rw (e, elem-push_new d out ordered) (ground (arith, =?_iff x d, e))
  | inr e ↦
      rw (e, elem-push_new d (out ++ (x ∷ [])) ordered) (ground (arith, elem-append d out (x ∷ [])))
]

distinct-push_new :
    (out ordered : List Bytes) → distinct out ≡ true → distinct (push_new out ordered) ≡ true
unfolding push_new
distinct-push_new out [] h = h
distinct-push_new out (x ∷ ordered) h = elim (Bool-cases (elem x out)) [
  | inl e ↦ rw e (distinct-push_new out ordered h)
  | inr e ↦ rw e (distinct-push_new (out ++ (x ∷ [])) ordered (distinct-snoc out x h e))
]

abbrev pub head : List Bytes → Option Bytes
head [] = none
head (d ∷ ds) = some d

head-push_new : (s : Bytes) (out ordered : List Bytes) → head (push_new (s ∷ out) ordered) ≡ some s
unfolding push_new
head-push_new s out [] = refl
head-push_new s out (x ∷ ordered) = elim (Bool-cases (elem x (s ∷ out))) [
  | inl e ↦ rw e (head-push_new s out ordered)
  | inr e ↦ rw e (head-push_new s (out ++ (x ∷ [])) ordered)
]

elem-turned : (d : Bytes) (k : ℕ) (xs : List Bytes) → elem d (drop k xs ++ take k xs) ≡ elem d xs
elem-turned d k xs =
    let whole = ap (elem d) (take-append-drop k xs) in
    ground
      (arith, whole, elem-append d (drop k xs) (take k xs), elem-append d (take k xs) (drop k xs))

elem-ordered :
    (d : Bytes) (domains : List Bytes) (dc : ℤ) (dc_map : Map ℤ ℕ) (rr : ℕ)
    → elem d (ordered_domains domains dc dc_map rr).0 ≡ elem d domains
unfolding ordered_domains
elem-ordered d [] dc dc_map rr = refl
elem-ordered d (x ∷ xs) dc dc_map rr =
    ap (elem d) (ordered_domains_lem (x ∷ xs) dc dc_map rr rr (omega arith)).0
    ∙ elem-turned d (turn_of dc (length (x ∷ xs)) dc_map rr) (x ∷ xs)

-- While the sticky domain of a datacenter is in the pool, it is the first to be tried; every domain
-- of the pool is in the order, no other is, and none stands in it twice, even where the pool lists
-- one twice.
pub proxy_domains_for_dc_sticky :
    (b : Balancer) (dc : ℤ) (sticky d : Bytes)
    → Map.get b.dc_proxy_sticky dc ≡ some sticky
    → elem sticky b.proxy_domains ≡ true
    → (head (proxy_domains_for_dc b dc).1 ≡ some sticky)
      × ((elem d (proxy_domains_for_dc b dc).1 ≡ elem d b.proxy_domains)
          × (distinct (proxy_domains_for_dc b dc).1 ≡ true))
unfolding proxy_domains_for_dc
proxy_domains_for_dc_sticky b dc sticky d e h =
    let ordered = (ordered_domains b.proxy_domains dc b.dc_proxy_idx b.proxy_rr).0 in
    rw (proxy_domains_for_dc, e, h)
      (
        head-push_new sticky [] ordered,
        (
          elem-push_new d (sticky ∷ []) ordered
              ∙ ground (
                arith,
                elem-ordered d b.proxy_domains dc b.dc_proxy_idx b.proxy_rr,
                =?_iff sticky d,
                h,
              ),
          distinct-push_new (sticky ∷ []) ordered refl,
        ),
      )
