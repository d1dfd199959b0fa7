-- ===== src/Config/Lines.antt =====
-- config.rs: a quoted line of the file is read back.
use mathlib.Core.List.{append_assoc}
use wrtg.Prelude.{
  ℕ, ◌-◌, ◌≡◌, refl, sym, ap, ◌∙◌, subst, arith, Bool, true, false, not, Option, none, some, [],
  ◌∷◌, ◌++◌, ◌==◌, leb, length, take, drop, any, length-append, take-length,
}
use wrtg.Prelude.Bytes.{Bytes, bytes, is_whitespace, trim, trim_end}
use wrtg.Prelude.Trim.{trim_start-kept, trim_end-kept, trim-kept}
use wrtg.CfProxyDomains.Caesar.{strip_suffix-append}
use wrtg.Config.{is_key, is_key_char, split_once_at, quoted_by, unquoted, parse_kv_line}

-- The last of a text that is not empty.
last_of : (c : ℕ) (s : Bytes) → (t : Bytes) × (d : ℕ) × ((c ∷ s) ≡ t ++ (d ∷ []))
last_of c [] = ([], c, refl)
last_of c (d ∷ s) = let (t, e, q) = last_of d s in (c ∷ t, e, ap (◌∷◌ c) q)

any-last : (p : ℕ → Bool) (t : Bytes) (d : ℕ) → any p (t ++ (d ∷ [])) ≡ false → p d ≡ false
any-last p [] d h = ground arith
any-last p (c ∷ t) d h = any-last p t d (ground arith)

key_char-plain : (c : ℕ) → is_key_char c ≡ true → is_whitespace c ≡ false
key_char-plain c h = ground arith

not_hash : (c : ℕ) → is_key_char c ≡ true → (c == b'#') ≡ false
not_hash c h = ground arith

not_equals : (c : ℕ) → is_key_char c ≡ true → (c == b'=') ≡ false
not_equals c h = ground arith

split_once_at-first :
    (key raw : Bytes)
    → any (λ c. not (is_key_char c)) key ≡ false
    → split_once_at b'=' (key ++ (b'=' ∷ raw)) ≡ some (key, raw)
unfolding split_once_at
split_once_at-first [] raw h = refl
split_once_at-first (c ∷ key) raw h =
    rw (not_equals c (ground arith), split_once_at-first key raw (ground arith)) refl

trim-key :
    (c : ℕ) (s : Bytes) → any (λ c. not (is_key_char c)) (c ∷ s) ≡ false → trim (c ∷ s) ≡ c ∷ s
unfolding trim
trim-key c s h =
    let (t, d, q) = last_of c s in
    let last : any (λ c. not (is_key_char c)) (t ++ (d ∷ [])) ≡ false =
      subst (λ x. any (λ c. not (is_key_char c)) x ≡ false) q h in
    let key_char : is_key_char d ≡ true =
      opposite (is_key_char d) (any-last (λ c. not (is_key_char c)) t d last) in
    ap (trim_end is_whitespace)
      (trim_start-kept is_whitespace c s (key_char-plain c (ground arith)) ∙ q)
    ∙ trim_end-kept is_whitespace t d (key_char-plain d key_char)
    ∙ sym q
  where
    opposite : (b : Bool) → not b ≡ false → b ≡ true
    opposite b h = ground arith

is_quoted : (value : Bytes) → quoted_by (bytes "\"") (b'"' ∷ (value ++ (b'"' ∷ []))) ≡ true
is_quoted value =
    ap (λ (o : Option Bytes). elim o as (λ x. Bool) [ none ↦ false | some before ↦ true ])
      (strip_suffix-append (b'"' ∷ value) b'"' [])

unquoted-taken :
    (raw : Bytes)
    → leb 2 (length raw) ≡ true
    → quoted_by (bytes "\"") raw ≡ true
    → unquoted raw ≡ take (length raw - 2) (drop 1 raw)
unfolding unquoted
unquoted-taken raw long q = rw (unquoted, long, q) refl

unquoted-quoted : (value : Bytes) → unquoted (b'"' ∷ (value ++ (b'"' ∷ []))) ≡ value
unquoted-quoted value =
    unquoted-taken (b'"' ∷ (value ++ (b'"' ∷ []))) (ground (arith, length-append value (b'"' ∷ [])))
      (is_quoted value)
    ∙ ap (λ n. take n (value ++ (b'"' ∷ []))) (omega (arith, length-append value (b'"' ∷ [])))
    ∙ take-length value (b'"' ∷ [])

-- A line `KEY="value"` gives the key and all of the value, whatever bytes the value has: spaces at its ends, a `#`,
-- an `=` and further quotes among them.
pub parse_kv_line-quoted :
    (key value : Bytes)
    → is_key key ≡ true
    → parse_kv_line (key ++ (b'=' ∷ b'"' ∷ (value ++ (b'"' ∷ [])))) ≡ some (key, value)
unfolding parse_kv_line
parse_kv_line-quoted [] value h = absurd (ground arith)
parse_kv_line-quoted (c ∷ key) value h =
    rw
      (
        parse_kv_line,
        whole,
        split,
        trim-key c key keys,
        trim-kept b'"' value b'"' refl refl,
        unquoted-quoted value,
        keys,
        not_hash c (ground arith),
      )
      refl
  where
    keys : any (λ c. not (is_key_char c)) (c ∷ key) ≡ false
    keys = ground arith

    raw : Bytes
    raw = b'"' ∷ (value ++ (b'"' ∷ []))

    text : Bytes
    text = c ∷ (key ++ (b'=' ∷ raw))

    whole : trim text ≡ text
    whole =
        ap (λ t. trim (c ∷ t)) (sym (append_assoc key (b'=' ∷ b'"' ∷ value) (b'"' ∷ [])))
        ∙ trim-kept c (key ++ (b'=' ∷ b'"' ∷ value)) b'"' (key_char-plain c (ground arith)) refl
        ∙ ap (◌∷◌ c) (append_assoc key (b'=' ∷ b'"' ∷ value) (b'"' ∷ []))

    split : split_once_at b'=' text ≡ some (c ∷ key, raw)
    split = split_once_at-first (c ∷ key) raw keys
