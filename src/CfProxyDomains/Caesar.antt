-- ===== src/CfProxyDomains/Caesar.antt =====
-- cf_proxy_domains.rs: the cipher of the list is undone.
use wrtg.Prelude.{
  ℕ, ◌+◌, ◌-◌, ◌%◌, ◌≡◌, refl, ap, arith, false, leb, ◌&&◌, ◌||◌, inl, inr, some, [], ◌∷◌, ◌++◌,
  map, if◌then◌else◌, length, length-append, Bool-cases,
}
use wrtg.Prelude.Eq.{ℕ_eq, eq_list, eq_list_iff}
use wrtg.Prelude.Bytes.{Bytes, bytes, strip_suffix}
use wrtg.CfProxyDomains.{decode_cfproxy_domain, decode_char, letter_count}

-- The letters from `a` to `z` and from `A` to `Z` in a name.
abbrev pub letters : Bytes → ℕ
letters [] = 0
letters (c ∷ s) = letters s + (if (leb 97 c && leb c 122) || (leb 65 c && leb c 90) then 1 else 0)

abbrev encode_char : ℕ → ℕ → ℕ
encode_char shift c =
    if leb 97 c && leb c 122
    then 97 + (c - 97 + shift) % 26
    else if leb 65 c && leb c 90
    then 65 + (c - 65 + shift) % 26
    else c

-- How the list is written: each letter is moved on by the number of letters of the name.
abbrev pub encode_domain : Bytes → Bytes
encode_domain name = map (encode_char (letters name)) name ++ bytes ".com"

decode-encode_char : (shift c : ℕ) → decode_char shift (encode_char shift c) ≡ c
decode-encode_char shift c = ground arith

letter_count-encode : (shift : ℕ) (s : Bytes) → letter_count (map (encode_char shift) s) ≡ letters s
letter_count-encode shift [] = refl
letter_count-encode shift (c ∷ s) = ground (arith, letter_count-encode shift s)

cons_eq : {c d : ℕ} {s t : Bytes} → c ≡ d → s ≡ t → (c ∷ s) ≡ (d ∷ t)
cons_eq h k = cc

map-decode : (shift : ℕ) (s : Bytes) → map (decode_char shift) (map (encode_char shift) s) ≡ s
map-decode shift [] = refl
map-decode shift (c ∷ s) = cons_eq (decode-encode_char shift c) (map-decode shift s)

strip_suffix_self : (c : ℕ) (p : Bytes) → strip_suffix (c ∷ p) (c ∷ p) ≡ some []
strip_suffix_self c p = rw ((eq_list_iff (c ∷ p) (c ∷ p)).1 refl) refl

-- A longer text is not the suffix itself.
longer_differs : (c : ℕ) (s p : Bytes) → eq_list (c ∷ (s ++ p)) p ≡ false
longer_differs c s p = elim (Bool-cases (eq_list (c ∷ (s ++ p)) p)) [
  | inr h ↦ h
  | inl h ↦
      absurd (omega (arith, ap length ((eq_list_iff (c ∷ (s ++ p)) p).0 h), length-append s p))
]

pub strip_suffix-append :
    (s : Bytes) (d : ℕ) (p : Bytes) → strip_suffix (s ++ (d ∷ p)) (d ∷ p) ≡ some s
strip_suffix-append [] d p = strip_suffix_self d p
strip_suffix-append (c ∷ s) d p = rw (longer_differs c s (d ∷ p), strip_suffix-append s d p) refl

-- A name of the list, whose letters of either case are each moved on in the alphabet by the number of
-- letters in it and which ends in `.com`, is read back as the name that it stands for with `.co.uk`.
pub decode_cfproxy_domain-encode_domain :
    (name : Bytes) → decode_cfproxy_domain (encode_domain name) ≡ name ++ bytes ".co.uk"
unfolding decode_cfproxy_domain
decode_cfproxy_domain-encode_domain name =
    rw
      (
        decode_cfproxy_domain,
        strip_suffix-append (map (encode_char (letters name)) name) b'.' (bytes "com"),
        letter_count-encode (letters name) name,
        map-decode (letters name) name,
      )
      refl
