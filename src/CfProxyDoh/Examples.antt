-- ===== src/CfProxyDoh/Examples.antt =====
-- cf_proxy_doh.rs: an answer as a resolver gives it, and an address that is kept.
use wrtg.Prelude.{◌+◌, ◌≡◌, refl, Option, none, some, List, [], ◌∷◌, ◌++◌, ltb, if◌then◌else◌}
use wrtg.Prelude.Eq.{ℕ_eq, list_eq, ◌=?◌}
use wrtg.Prelude.Map
use wrtg.Prelude.Bytes.{Bytes, bytes, trim, trim_end, trim_start, split_at}
use wrtg.Prelude.Utf8.{from_utf8_lossy, lossy_from, lead}
use wrtg.ClientInit.{position}
use wrtg.CfProxyDoh.{
  record_is_type_a, type_a_from, data_of, records_of, parse_doh_a_records, resolve_doh, cached,
  first_answer, doh_cache_ttl,
}
use wrtg.CfProxyDoh.TypeA.{has_type_a, record_is_type_a-reference}
use wrtg.CfProxyDoh.Cached.{resolve_doh_cached}

abbrev text_record : Bytes
text_record = bytes "\"name\":\"x.co.uk\",\"type\":16,\"data\":\"v=spf1\"},"

record_is_type_a-reference_example : record_is_type_a text_record ≡ has_type_a text_record
record_is_type_a-reference_example = record_is_type_a-reference text_record

-- The record of type 16, and the one behind the answer, are passed by.
parse_doh_a_records-answer :
    parse_doh_a_records (
      bytes "{\"Answer\":[{"
      ++ (text_record
          ++ bytes
              "{\"type\":1,\"data\":\"104.21.75.42\"}],\"Additional\":[{\"type\":1,\"data\":\"9.9.9.9\"}]}"))
    ≡ bytes "104.21.75.42" ∷ []
unfolding parse_doh_a_records records_of data_of record_is_type_a type_a_from position
    from_utf8_lossy lossy_from lead split_at trim trim_end trim_start
parse_doh_a_records-answer = refl

abbrev asked : Bytes → List (Option Bytes)
asked domain = none ∷ some (bytes "104.21.75.42") ∷ some (bytes "8.8.8.8") ∷ []

resolve_doh_cached_example :
    ((resolve_doh none [] (bytes " a.dev") 5 asked 7).1 ≡ some (bytes "104.21.75.42"))
    × ((resolve_doh none
          (resolve_doh none [] (bytes " a.dev") 5 asked 7).0
          (bytes "a.dev ")
          100
          asked
          200).1
        ≡ (if ltb 100 (7 + doh_cache_ttl none)
            then some (bytes "104.21.75.42")
            else first_answer (asked (trim (bytes " a.dev")))))
    × ((other : Bytes)
        → Map.get (resolve_doh none [] (bytes " a.dev") 5 asked 7).0 other ≡ (
            if trim (bytes " a.dev") =? other
            then some (bytes "104.21.75.42", 7 + doh_cache_ttl none)
            else Map.get [] other))
unfolding trim trim_start cached Map.get first_answer
resolve_doh_cached_example =
    resolve_doh_cached none [] (bytes " a.dev") (bytes "104.21.75.42") 5 7 asked refl refl refl
      (bytes "a.dev ") 100 200 asked refl
