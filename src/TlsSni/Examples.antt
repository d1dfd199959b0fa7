-- ===== src/TlsSni/Examples.antt =====
-- tls_sni.rs: a ClientHello that is read, and one that is not survived.
use wrtg.Prelude.{
  ◌≡◌, refl, arith, true, [], ◌∷◌, ◌++◌, ◌&&◌, ◌==◌, leb, ltb, ◌*◌, inl, inr, length, get_or, drop,
  replicate,
}
use wrtg.Prelude.Bytes.{Bytes, bytes}
use wrtg.TlsSni.{host, be24, sni_from_client_hello, parse_tls_client_hello_sni}
use wrtg.TlsSni.Hello.{
  ClientHello, tls_record, handshake_message, hello_body, parse_tls_client_hello_sni_lem,
}
use wrtg.Prelude.Utf8.{lead}
use wrtg.TlsSni.HttpHost.{http_host_raw}
use wrtg.TlsSni.HttpHost.Shifted.{bad_count, http_host_raw_panics}
use wrtg.TlsSni.Panics.{is_panic, sni_from_client_hello_panics}

abbrev short_hello : Bytes
short_hello = 1 ∷ 0 ∷ 0 ∷ 34 ∷ replicate 34 3

short_hello-panics : is_panic (sni_from_client_hello short_hello) ≡ true
unfolding sni_from_client_hello
short_hello-panics = refl

sni_from_client_hello_panics_example : is_panic (sni_from_client_hello short_hello) ≡ (
    (leb 38 (length short_hello) && get_or short_hello 0 0 == 1) && be24 (drop 1 short_hello) == 34)
sni_from_client_hello_panics_example = sni_from_client_hello_panics short_hello

abbrev web_hello : ClientHello
web_hello = record {
  version_and_random = replicate 34 3;
  session_id = replicate 32 5;
  cipher_suites = 19 ∷ 1 ∷ 19 ∷ 2 ∷ [];
  compression = 0 ∷ [];
  extensions_before = (10, 0 ∷ 2 ∷ 0 ∷ 29 ∷ []) ∷ [];
  name = bytes "web.telegram.org";
  extensions_after = (23, []) ∷ [];
}

parse_tls_client_hello_sni_lem_example :
    parse_tls_client_hello_sni
      (tls_record (handshake_message (hello_body web_hello)) ++ bytes "and more")
    ≡ host (bytes "web.telegram.org")
parse_tls_client_hello_sni_lem_example =
    parse_tls_client_hello_sni_lem web_hello
      (record {
        fixed = refl;
        session = omega arith;
        suites = omega arith;
        methods = omega arith;
        before = ((omega arith, omega arith), tt);
        ascii = refl;
        fits = omega arith;
        in_record = omega arith;
      })
      (bytes "and more")

-- A path with three bytes that are in no UTF-8 text, and a header with nothing behind it.
abbrev garbled : Bytes
garbled = b'G' ∷ 0xff ∷ 0xff ∷ 0xfe ∷ []

http_host_raw_panics_example :
    is_panic (http_host_raw (garbled ++ (13 ∷ 10 ∷ (bytes "Host:" ++ bytes "a"))))
    ≡ ltb (length (bytes "a")) (2 * bad_count garbled)
unfolding lead
http_host_raw_panics_example =
    http_host_raw_panics garbled (bytes "a") (inl refl, (inr refl, (inr refl, (inr refl, tt)))) refl
      (omega arith)
