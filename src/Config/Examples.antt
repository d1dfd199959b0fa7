-- ===== src/Config/Examples.antt =====
-- config.rs: a file as it is written, and its reload.
use wrtg.Prelude.{◌≡◌, refl, false, none, some, [], ◌∷◌, ◌++◌, ◌&&◌}
use wrtg.Prelude.Eq.{ℕ_eq, ℤ_eq, list_eq}
use wrtg.Prelude.Int.{pos}
use wrtg.Prelude.Bytes.{
  Bytes, bytes, is_empty, trim, trim_end, trim_start, lowercase, to_ascii_lowercase, split_at,
  parse_uint, parse_digits,
}
use wrtg.Mtproto.Routing.{default_routes}
use wrtg.DcLearn.{parse_i32}
use wrtg.CfBalancer.{Balancer}
use wrtg.Config.{parse_front_dcs, dcs_of, sorted_set, put_in, parse_kv_line, reload_from_file}
use wrtg.Config.Lines.{parse_kv_line-quoted}
use wrtg.Config.Reload.{wants_pool, reload_from_file_lem}

abbrev text : Bytes
text =
    bytes
      "# wrtg\r\nFRONT_IP=1.2.3.4 # front\r\nCF_WORKER_DOMAIN=\"a.dev, b.dev\"\nWRTG_CFPROXY_AUTO=1\n"

parse_front_dcs-sorted : parse_front_dcs (bytes "4, 2;203 7,2") ≡ pos 2 ∷ pos 4 ∷ pos 203 ∷ []
unfolding parse_front_dcs dcs_of sorted_set put_in trim trim_end trim_start lowercase
    to_ascii_lowercase split_at parse_i32 parse_uint parse_digits
parse_front_dcs-sorted = refl

parse_kv_line-quoted_example :
    parse_kv_line
      (bytes "CF_WORKER_DOMAIN" ++ (b'=' ∷ b'"' ∷ (bytes " a.dev # b.dev " ++ (b'"' ∷ []))))
    ≡ some (bytes "CF_WORKER_DOMAIN", bytes " a.dev # b.dev ")
parse_kv_line-quoted_example =
    parse_kv_line-quoted (bytes "CF_WORKER_DOMAIN") (bytes " a.dev # b.dev ") refl

abbrev balancer : Balancer
balancer = record {
  worker_domains = [];
  proxy_domains = bytes "live.co.uk" ∷ [];
  worker_rr = 3;
  proxy_rr = 5;
  dc_worker_idx = [];
  dc_proxy_idx = (pos 2, 1) ∷ [];
  dc_proxy_sticky = [];
}

reload_from_file_lem_example :
    (reload_from_file none
        (some text)
        none
        none
        (reload_from_file none (some text) none none (default_routes, (balancer, [])))
      ≡ reload_from_file none (some text) none none (default_routes, (balancer, [])))
    × ((wants_pool none (some text)
          && is_empty
              (reload_from_file none
                (some text)
                none
                none
                (default_routes, (balancer, []))).1.0.proxy_domains)
        ≡ false)
reload_from_file_lem_example =
    reload_from_file_lem none (some text) none none (default_routes, (balancer, []))
