-- ===== src/TlsSni/HttpHost/Shifted.antt =====
-- tls_sni.rs, `http_host_raw`: an index into the decoded text, used on the bytes.
use mathlib.Core.List.{map-append}
use wrtg.Prelude.{
  ℕ, zero, suc, ◌+◌, ◌*◌, ◌≤◌, ◌≡◌, refl, ap, ◌∙◌, arith, Bool, true, false, not, ◌&&◌, ◌⊎◌, inl,
  inr, some, [], ◌∷◌, ◌++◌, ltb, ◌==◌, if◌then◌else◌, length, length-append, take, map, All,
}
use wrtg.Prelude.Bytes.{Bytes, bytes, lowercase, to_ascii_lowercase}
use wrtg.Prelude.Utf8.{
  lead, bad, replacement, from_utf8_lossy, lossy_from, is_ascii, from_utf8_lossy_ascii,
  from_utf8_lossy_bad,
}
use wrtg.ClientInit.{position}
use wrtg.TlsSni.{panicked}
use wrtg.TlsSni.Panics.{is_panic}
use wrtg.TlsSni.HttpHost.{max_scan, trimmed_host, http_host_raw}

-- A byte of ASCII other than a carriage return, or one that is in no UTF-8 text.
abbrev pub IsPlainOrBad : ℕ → Type 0
IsPlainOrBad c = ((ltb c 0x80 && not (c == 13)) ≡ true) ⊎ (lead c ≡ bad)

abbrev pub bad_count : Bytes → ℕ
bad_count [] = 0
bad_count (c ∷ s) = if ltb c 0x80 then bad_count s else suc (bad_count s)

abbrev decoded : Bytes → Bytes
decoded [] = []
decoded (c ∷ s) = if ltb c 0x80 then c ∷ decoded s else replacement ++ decoded s

bad-high : (c : ℕ) → lead c ≡ bad → ltb c 0x80 ≡ false
unfolding lead
bad-high c h = ground arith

from_utf8_lossy-plain :
    (c : ℕ) (s : Bytes) → ltb c 0x80 ≡ true → from_utf8_lossy (c ∷ s) ≡ c ∷ from_utf8_lossy s
unfolding from_utf8_lossy lossy_from lead
from_utf8_lossy-plain c s h = rw (lossy_from, lead, h) refl

from_utf8_lossy-decoded :
    (before s : Bytes)
    → All IsPlainOrBad before
    → from_utf8_lossy (before ++ s) ≡ decoded before ++ from_utf8_lossy s
from_utf8_lossy-decoded [] s h = refl
from_utf8_lossy-decoded (c ∷ before) s (h, hs) = elim h [
  | inl p ↦ plain (ground arith) (
      from_utf8_lossy-plain c (before ++ s) (ground arith)
      ∙ ap (◌∷◌ c) (from_utf8_lossy-decoded before s hs))
  | inr b ↦ high (bad-high c b) (
      from_utf8_lossy_bad c (before ++ s) b
      ∙ ap (◌++◌ replacement) (from_utf8_lossy-decoded before s hs))
]
  where
    plain :
        ltb c 0x80 ≡ true
        → from_utf8_lossy (c ∷ (before ++ s)) ≡ c ∷ (decoded before ++ from_utf8_lossy s)
        → from_utf8_lossy (c ∷ (before ++ s)) ≡ decoded (c ∷ before) ++ from_utf8_lossy s
    plain q e = rw (q) e

    high :
        ltb c 0x80 ≡ false
        → from_utf8_lossy (c ∷ (before ++ s)) ≡ replacement ++ (decoded before ++ from_utf8_lossy s)
        → from_utf8_lossy (c ∷ (before ++ s)) ≡ decoded (c ∷ before) ++ from_utf8_lossy s
    high q e = rw (q) e

length-decoded : (before : Bytes) → length (decoded before) ≡ length before + 2 * bad_count before
length-decoded [] = refl
length-decoded (c ∷ before) = ground (arith, length-decoded before)

abbrev needle : Bytes
needle = 13 ∷ 10 ∷ bytes "host:"

position_later :
    (c : ℕ) (p s : Bytes) (i : ℕ)
    → (c == 13) ≡ false
    → position (13 ∷ p) s ≡ some i
    → position (13 ∷ p) (c ∷ s) ≡ some (suc i)
unfolding position
position_later c p s i h e = rw (h, e) refl

lowercase-not_return : (c : ℕ) → (c == 13) ≡ false → (to_ascii_lowercase c == 13) ≡ false
unfolding to_ascii_lowercase
lowercase-not_return c h = ground arith

position_here : (t : Bytes) → position needle (needle ++ t) ≡ some 0
unfolding position
position_here t = refl

position-decoded :
    (before t : Bytes)
    → All IsPlainOrBad before
    → position needle (lowercase (decoded before) ++ (needle ++ t)) ≡ some (length (decoded before))
unfolding lowercase
position-decoded [] t h = position_here t
position-decoded (c ∷ before) t (h, hs) = elim h [
  | inl p ↦ plain (ground arith) (
      position_later (to_ascii_lowercase c) _ _ _ (lowercase-not_return c (ground arith))
        (position-decoded before t hs))
  | inr b ↦ high (bad-high c b) (
      position_later 0xef _ _ _ refl (
        position_later 0xbf _ _ _ refl
          (position_later 0xbd _ _ _ refl (position-decoded before t hs))))
]
  where
    Found : Bytes → Type 0
    Found text = position needle (lowercase text ++ (needle ++ t)) ≡ some (length text)

    plain : ltb c 0x80 ≡ true → Found (c ∷ decoded before) → Found (decoded (c ∷ before))
    plain q e = rw (q) e

    high : ltb c 0x80 ≡ false → Found (replacement ++ decoded before) → Found (decoded (c ∷ before))
    high q e = rw (q) e

take_all : (n : ℕ) (s : Bytes) → length s ≤ n → take n s ≡ s
take_all zero [] h = refl
take_all zero (c ∷ s) h = absurd (omega arith)
take_all (suc n) [] h = refl
take_all (suc n) (c ∷ s) h = ap (◌∷◌ c) (take_all n s (omega arith))

trimmed_host-calm : (value : Bytes) → is_panic (trimmed_host value) ≡ false
trimmed_host-calm value = ground arith

out_or_calm : (b : Bool) (value : Bytes) → is_panic (if b then panicked else trimmed_host value) ≡ b
out_or_calm true value = refl
out_or_calm false value = trimmed_host-calm value

-- A header behind `before`, in the text that is searched.
abbrev request : Bytes → Bytes → Bytes
request before value = before ++ (13 ∷ 10 ∷ (bytes "Host:" ++ value))

searched :
    (before value : Bytes)
    → All IsPlainOrBad before
    → is_ascii value ≡ true
    → position needle (lowercase (from_utf8_lossy (request before value)))
      ≡ some (length before + 2 * bad_count before)
unfolding lowercase to_ascii_lowercase
searched before value plain a =
    ap (λ t. position needle (map to_ascii_lowercase t))
      (from_utf8_lossy-decoded before (13 ∷ 10 ∷ (bytes "Host:" ++ value)) plain
        ∙ ap (◌++◌ (decoded before)) (from_utf8_lossy_ascii (13 ∷ 10 ∷ (bytes "Host:" ++ value)) a))
    ∙ ap (position needle)
        (map-append to_ascii_lowercase (decoded before) (13 ∷ 10 ∷ (bytes "Host:" ++ value)))
    ∙ position-decoded before (map to_ascii_lowercase value) plain
    ∙ ap some (length-decoded before)

-- The index is used on the bytes.
scanned :
    (s : Bytes) (i : ℕ)
    → length s ≤ max_scan
    → position needle (lowercase (from_utf8_lossy s)) ≡ some i
    → is_panic (http_host_raw s) ≡ ltb (length s) (i + 7)
unfolding http_host_raw
scanned s i short e =
    rw (http_host_raw, take_all max_scan s short, e, take_all max_scan s short)
      (out_or_calm (ltb (length s) (i + 7)) _)

-- A request of at most 4096 bytes whose first lines are ASCII text without carriage returns but for bytes
-- that are in no UTF-8 text, and whose Host header has a value in ASCII: looking for that header reads
-- out of bounds exactly when the value and what follows it are shorter than twice the number of those
-- bytes, each of which the decoded text has three bytes for. Without such bytes the search does not
-- panic.
pub http_host_raw_panics :
    (before value : Bytes)
    → All IsPlainOrBad before
    → is_ascii value ≡ true
    → length (before ++ (13 ∷ 10 ∷ (bytes "Host:" ++ value))) ≤ max_scan
    → is_panic (http_host_raw (before ++ (13 ∷ 10 ∷ (bytes "Host:" ++ value))))
      ≡ ltb (length value) (2 * bad_count before)
http_host_raw_panics before value plain a short =
    scanned (request before value) (length before + 2 * bad_count before) short
      (searched before value plain a)
    ∙ ground (arith, length-append before (13 ∷ 10 ∷ (bytes "Host:" ++ value)))
