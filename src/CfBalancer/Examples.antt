-- ===== src/CfBalancer/Examples.antt =====
-- cf_balancer.rs: three domains, the last of which worked before.
use wrtg.Prelude.{◌≡◌, refl, arith, true, List, [], ◌∷◌, ◌++◌, some, take, drop}
use wrtg.Prelude.Int.{pos}
use wrtg.Prelude.Eq.{ℤ_eq}
use wrtg.Prelude.Map
use wrtg.Prelude.Bytes.{Bytes, bytes}
use wrtg.Prelude.Distinct.{elem, distinct}
use wrtg.CfBalancer.{Balancer, ordered_domains, proxy_domains_for_dc}
use wrtg.CfBalancer.Rotation.{turn_of, ordered_domains_lem}
use wrtg.CfBalancer.Sticky.{head, proxy_domains_for_dc_sticky}

abbrev three : List Bytes
three = bytes "a.dev" ∷ bytes "b.dev" ∷ bytes "c.dev" ∷ []

ordered_domains_lem_example :
    ((ordered_domains three (pos 2) [] 7).0
      ≡ drop (turn_of (pos 2) 3 [] 7) three ++ take (turn_of (pos 2) 3 [] 7) three)
    × ((ordered_domains three (pos 2) (ordered_domains three (pos 2) [] 7).1.0 9).0
        ≡ (ordered_domains three (pos 2) [] 7).0)
ordered_domains_lem_example = ordered_domains_lem three (pos 2) [] 7 9 (omega arith)

abbrev balancer : Balancer
balancer = record {
  worker_domains = [];
  proxy_domains = three;
  worker_rr = 0;
  proxy_rr = 1;
  dc_worker_idx = [];
  dc_proxy_idx = [];
  dc_proxy_sticky = (pos 4, bytes "c.dev") ∷ [];
}

proxy_domains_for_dc_sticky_example :
    (head (proxy_domains_for_dc balancer (pos 4)).1 ≡ some (bytes "c.dev"))
    × ((elem (bytes "b.dev") (proxy_domains_for_dc balancer (pos 4)).1 ≡ elem (bytes "b.dev") three)
        × (distinct (proxy_domains_for_dc balancer (pos 4)).1 ≡ true))
unfolding Map.get
proxy_domains_for_dc_sticky_example =
    proxy_domains_for_dc_sticky balancer (pos 4) (bytes "c.dev") (bytes "b.dev") refl refl
