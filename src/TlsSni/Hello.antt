-- ===== src/TlsSni/Hello.antt =====
-- tls_sni.rs: a ClientHello as RFC 8446 and RFC 6066 write it is read back.
use mathlib.Core.List.{append_assoc}
use wrtg.Prelude.{
  ℕ, zero, suc, ◌+◌, ◌*◌, ◌/◌, ◌%◌, ◌≤◌, ◌<◌, ◌≡◌, refl, sym, ap, ◌∙◌, arith, true, List, [], ◌∷◌,
  ◌++◌, length, take, drop, length-append, take-length, drop-length, All,
}
use wrtg.Prelude.Bytes.{Bytes}
use wrtg.Prelude.Utf8.{is_ascii, is_utf8_ascii}
use wrtg.TlsSni.{
  Scan, in_compression, in_extensions, host, skip_block8, skip_block16, sni_names,
  parse_sni_extension, extensions, from_session_id, sni_from_client_hello, records,
  parse_tls_client_hello_sni,
}

abbrev pub u16 : ℕ → Bytes
u16 n = n / 256 ∷ n % 256 ∷ []

abbrev pub block8 : Bytes → Bytes
block8 s = length s ∷ s

abbrev pub block16 : Bytes → Bytes
block16 s = length s / 256 ∷ length s % 256 ∷ s

-- The extension `server_name` with one host name.
abbrev pub server_name : Bytes → Bytes
server_name name = block16 (0 ∷ block16 name)

abbrev pub extension : ℕ × Bytes → Bytes
extension (kind, content) = kind / 256 ∷ kind % 256 ∷ block16 content

abbrev pub extension_list : List (ℕ × Bytes) → Bytes
extension_list [] = []
extension_list (e ∷ es) = extension e ++ extension_list es

-- The parts of a ClientHello.
pub record ClientHello : Type 0 where
  pub version_and_random : Bytes
  pub session_id : Bytes
  pub cipher_suites : Bytes
  pub compression : Bytes
  pub extensions_before : List (ℕ × Bytes)
  pub name : Bytes
  pub extensions_after : List (ℕ × Bytes)

abbrev pub all_extensions : ClientHello → Bytes
all_extensions h =
    extension_list h.extensions_before
    ++ (extension (0, server_name h.name) ++ extension_list h.extensions_after)

abbrev pub hello_body : ClientHello → Bytes
hello_body h =
    h.version_and_random
    ++ (block8 h.session_id
        ++ (block16 h.cipher_suites ++ (block8 h.compression ++ block16 (all_extensions h))))

abbrev pub handshake_message : Bytes → Bytes
handshake_message body =
    1 ∷ length body / 65536 ∷ length body / 256 % 256 ∷ length body % 256 ∷ body

abbrev pub tls_record : Bytes → Bytes
tls_record message = 0x16 ∷ 3 ∷ 1 ∷ block16 message

-- An extension that is not `server_name`, and that its lengths can express.
abbrev pub IsOther : ℕ × Bytes → Type 0
IsOther (kind, content) = (0 < kind) × (length content < 65536)

pub record IsWellFormed (h : ClientHello) : Type 0 where
  pub fixed : length h.version_and_random ≡ 34
  pub session : length h.session_id < 256
  pub suites : length h.cipher_suites < 65536
  pub methods : length h.compression < 256
  pub before : All IsOther h.extensions_before
  pub ascii : is_ascii h.name ≡ true
  pub fits : length (all_extensions h) < 65536
  pub in_record : length (handshake_message (hello_body h)) < 65536

-- A block is skipped whole.
skip_block8-block8 :
    (s rest : Bytes) (scan : Bytes → Scan) → skip_block8 (block8 s ++ rest) scan ≡ scan rest
skip_block8-block8 s rest scan = ground (arith, length-append s rest, drop-length s rest)

two_bytes : (n : ℕ) → n / 256 * 256 + n % 256 ≡ n
two_bytes n = omega arith

skip_block16-block16 :
    (s rest : Bytes) (scan : Bytes → Scan) → skip_block16 (block16 s ++ rest) scan ≡ scan rest
skip_block16-block16 s rest scan =
    rw (two_bytes (length s)) (ground (arith, length-append s rest, drop-length s rest))

in_compression-block8 : (s rest : Bytes) → in_compression (block8 s ++ rest) ≡ in_extensions rest
in_compression-block8 s rest = ground (arith, skip_block8-block8 s rest in_extensions)

take_self : (s : Bytes) → take (length s) s ≡ s
take_self [] = refl
take_self (c ∷ s) = ap (◌∷◌ c) (take_self s)

parse_server_name :
    (name : Bytes) → is_ascii name ≡ true → parse_sni_extension (server_name name) ≡ host name
unfolding parse_sni_extension sni_names
parse_server_name name a =
    rw (two_bytes (length name), take_self name, is_utf8_ascii name a) (ground arith)

extensions_skip :
    (fuel kind : ℕ) (content rest : Bytes)
    → 0 < kind
    → extensions (suc fuel) (extension (kind, content) ++ rest) ≡ extensions fuel rest
unfolding extensions
extensions_skip fuel kind content rest h =
    rw
      (
        two_bytes kind,
        two_bytes (length content),
        drop-length content rest,
        length-append content rest,
      )
      (ground arith)

extensions_found :
    (fuel : ℕ) (name rest : Bytes)
    → is_ascii name ≡ true
    → extensions (suc fuel) (extension (0, server_name name) ++ rest) ≡ host name
unfolding extensions
extensions_found fuel name rest a =
    rw
      (
        two_bytes (length (server_name name)),
        take-length (server_name name) rest,
        parse_server_name name a,
        length-append (server_name name) rest,
      )
      (ground arith)

-- The search passes by the other extensions.
extensions_among :
    (fuel : ℕ) (before : List (ℕ × Bytes)) (name rest : Bytes)
    → All IsOther before
    → is_ascii name ≡ true
    → length (extension_list before ++ (extension (0, server_name name) ++ rest)) ≤ fuel
    → extensions fuel (extension_list before ++ (extension (0, server_name name) ++ rest))
      ≡ host name
extensions_among zero [] name rest others a enough = absurd (omega arith)
extensions_among zero (e ∷ before) name rest others a enough = absurd (omega arith)
extensions_among (suc fuel) [] name rest others a enough = extensions_found fuel name rest a
extensions_among (suc fuel) ((kind, content) ∷ before) name rest (other, others) a enough =
    let later = extension_list before ++ (extension (0, server_name name) ++ rest) in
    rw (append_assoc content (extension_list before) (extension (0, server_name name) ++ rest)) (
      extensions_skip fuel kind content later other.0
      ∙ extensions_among fuel before name rest others a (
          shorter (length content) (length later) fuel _
            (ap length (
                append_assoc content (extension_list before)
                  (extension (0, server_name name) ++ rest))
              ∙ length-append content later)
            enough))
  where
    shorter : (c l f n : ℕ) → n ≡ c + l → suc (suc (suc (suc n))) ≤ suc f → l ≤ f
    shorter c l f n e h = omega arith

-- The extensions are read where the blocks before them end.
from_session_id_blocks :
    (session suites methods exts : Bytes)
    → from_session_id (block8 session ++ (block16 suites ++ (block8 methods ++ block16 exts)))
      ≡ extensions (length exts) exts
from_session_id_blocks session suites methods exts =
    skip_block8-block8 session (block16 suites ++ (block8 methods ++ block16 exts))
      (λ t. skip_block16 t in_compression)
    ∙ skip_block16-block16 suites (block8 methods ++ block16 exts) in_compression
    ∙ in_compression-block8 methods (block16 exts)
    ∙ rw (two_bytes (length exts), take_self exts) (ground arith)

three_bytes : (n : ℕ) → n / 65536 * 65536 + n / 256 % 256 * 256 + n % 256 ≡ n
three_bytes n = omega arith

sni_from_message :
    (body : Bytes)
    → 34 ≤ length body
    → sni_from_client_hello (handshake_message body) ≡ from_session_id (drop 34 body)
unfolding sni_from_client_hello
sni_from_message body h = rw (three_bytes (length body), take_self body) (ground arith)

first_record :
    (fuel : ℕ) (message rest name : Bytes)
    → 4 ≤ length message
    → sni_from_client_hello message ≡ host name
    → records (suc fuel) (tls_record message ++ rest) ≡ host name
unfolding records
first_record fuel message rest name long found =
    rw (two_bytes (length message), take-length message rest, found, length-append message rest)
      (ground arith)

module _ (h : ClientHello) (w : IsWellFormed h) where
  in_body : from_session_id (drop 34 (hello_body h)) ≡ host h.name
  in_body =
      ap from_session_id
        (ap (λ n. drop n (hello_body h)) (sym w.fixed) ∙ drop-length h.version_and_random _)
      ∙ from_session_id_blocks h.session_id h.cipher_suites h.compression (all_extensions h)
      ∙ extensions_among (length (all_extensions h)) h.extensions_before h.name
          (extension_list h.extensions_after) w.before w.ascii (omega arith)

  long_body : 34 ≤ length (hello_body h)
  long_body = omega (arith, w.fixed, length-append h.version_and_random _)

  -- A record with a ClientHello that names a host in ASCII, whatever its session id, cipher suites and other
  -- extensions are, and whatever follows it in what has been read, is read as a request for that host.
  pub parse_tls_client_hello_sni_lem :
      (rest : Bytes)
      → parse_tls_client_hello_sni (tls_record (handshake_message (hello_body h)) ++ rest)
        ≡ host h.name
  unfolding parse_tls_client_hello_sni
  parse_tls_client_hello_sni_lem rest =
      first_record _ (handshake_message (hello_body h)) rest h.name (omega arith)
        (sni_from_message (hello_body h) long_body ∙ in_body)
