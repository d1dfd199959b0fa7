-- ===== src/TlsSni/Panics.antt =====
-- tls_sni.rs: the one ClientHello that the parser does not survive.
use wrtg.Prelude.{
  ℕ, zero, suc, ◌+◌, ◌≤◌, Bool-cases, inl, inr, ◌≡◌, refl, ap, ◌-◌, min, ◌∙◌, arith, Bool, true,
  false, not, ◌&&◌, [], ◌∷◌, ltb, leb, ◌==◌, if◌then◌else◌, length, take, drop, get_or, length-take,
  length-drop,
}
use wrtg.Prelude.Bytes.{Bytes}
use wrtg.TlsSni.{
  Scan, panicked, nothing, host, be16, be24, skip, skip_block16, in_compression, sni_names,
  parse_sni_extension, or_else, extensions, in_extensions, from_session_id, sni_from_client_hello,
}

abbrev pub is_panic : Scan → Bool
is_panic panicked = true
is_panic nothing = false
is_panic (host h) = false

sni_names-calm :
    (fuel : ℕ) (s : Bytes) (n pos : ℕ)
    → n + 2 ≤ length s
    → is_panic (sni_names fuel s n pos) ≡ false
unfolding sni_names
sni_names-calm zero s n pos h = refl
sni_names-calm (suc fuel) s n pos h =
    ground (arith, sni_names-calm fuel s n (pos + 3 + be16 (drop 1 (drop pos s))) h)

parse_sni_extension-calm : (s : Bytes) → is_panic (parse_sni_extension s) ≡ false
unfolding parse_sni_extension
parse_sni_extension-calm s = ground (arith, sni_names-calm (length s) s (be16 s) 2)

or_else-calm :
    (a b : Scan) → is_panic a ≡ false → is_panic b ≡ false → is_panic (or_else a b) ≡ false
or_else-calm panicked b ha hb = ha
or_else-calm nothing b ha hb = hb
or_else-calm (host h) b ha hb = refl

extensions-calm : (fuel : ℕ) (s : Bytes) → is_panic (extensions fuel s) ≡ false
unfolding extensions
extensions-calm zero s = refl
extensions-calm (suc fuel) s = elim (Bool-cases (ltb (length (drop 4 s)) (be16 (drop 2 s)))) [
  | inl e ↦ rw (extensions, e) (ground arith)
  | inr e ↦
      let body = drop 4 s in
      let n = be16 (drop 2 s) in
      let found = if be16 s == 0 then parse_sni_extension (take n body) else nothing in
      let calm : is_panic found ≡ false = ground (arith, parse_sni_extension-calm (take n body)) in
      rw (extensions, e)
        (ground (
          arith,
          or_else-calm found (extensions fuel (drop n body)) calm
              (extensions-calm fuel (drop n body)),
        ))
]

in_extensions-calm : (s : Bytes) → is_panic (in_extensions s) ≡ false
in_extensions-calm s =
    let exts = take (be16 s) (drop 2 s) in ground (arith, extensions-calm (length exts) exts)

-- A block is skipped without a panic, where its length can be read.
skip-calm :
    (n : ℕ) (s : Bytes) (scan : Bytes → Scan)
    → ((t : Bytes) → is_panic (scan t) ≡ false)
    → is_panic (skip n s scan) ≡ false
skip-calm n s scan h = ground (arith, h (drop n s))

in_compression-calm : (s : Bytes) → is_panic (in_compression s) ≡ false
in_compression-calm s =
    ground (arith, skip-calm (get_or s 0 0) (drop 1 s) in_extensions in_extensions-calm)

skip_block16-calm : (s : Bytes) → is_panic (skip_block16 s in_compression) ≡ false
skip_block16-calm s =
    ground (arith, skip-calm (be16 s) (drop 2 s) in_compression in_compression-calm)

from_session_id-panics : (s : Bytes) → is_panic (from_session_id s) ≡ (length s == 0)
from_session_id-panics [] = refl
from_session_id-panics (n ∷ s) =
    ground (arith, skip-calm n s (λ t. skip_block16 t in_compression) skip_block16-calm)

-- The tests before the session id, given the length of the body.
guards :
    (len n : ℕ) (is_hello : Bool) (deep : Scan)
    → is_panic deep ≡ (min n (len - 4) - 34 == 0)
    → is_panic (
        if ltb len 4
        then nothing
        else if ltb len 4
        then panicked
        else if not is_hello
        then nothing
        else if ltb len (n + 4)
        then nothing
        else if ltb len (n + 4)
        then panicked
        else if ltb (min n (len - 4)) 34
        then nothing
        else deep)
      ≡ ((leb 38 len && is_hello) && n == 34)
guards len n is_hello deep h = ground arith

-- The parser of a ClientHello reads out of bounds exactly when the handshake is one whose body is announced as,
-- and has, 34 bytes, the version and the random part with nothing behind them: the test for a
-- shorter body lets that one through. On every other input it does not panic.
pub sni_from_client_hello_panics :
    (payload : Bytes)
    → is_panic (sni_from_client_hello payload)
      ≡ ((leb 38 (length payload) && get_or payload 0 0 == 1) && be24 (drop 1 payload) == 34)
unfolding sni_from_client_hello
sni_from_client_hello_panics payload =
    let n = be24 (drop 1 payload) in
    let body = take n (drop 4 payload) in
    rw (length-take n (drop 4 payload), length-drop 4 payload)
      (guards (length payload) n (get_or payload 0 0 == 1) (from_session_id (drop 34 body)) (
        from_session_id-panics (drop 34 body)
        ∙ ap (λ k. k == 0) (length-drop 34 body)
        ∙ ap (λ k. k - 34 == 0) (length-take n (drop 4 payload))
        ∙ ap (λ k. min n k - 34 == 0) (length-drop 4 payload)))
