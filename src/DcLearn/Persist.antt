-- ===== src/DcLearn/Persist.antt =====
-- dc_learn.rs: a line that is persisted is read back.
use mathlib.Core.List.{append_assoc}
use wrtg.Prelude.{
  ℕ, ◌≡◌, refl, sym, ap, ◌∙◌, subst, arith, Bool, true, false, not, ◌&&◌, ◌||◌, inl, inr, none,
  some, List, [], ◌∷◌, ◌++◌, leb, ◌==◌, ==_iff, any, length, if◌then◌else◌, Bool-cases, keep,
}
use wrtg.Prelude.Int.{ℤ, pos, negsuc}
use wrtg.Prelude.Bytes.{
  Bytes, bytes, is_empty, is_whitespace, is_ascii_digit, split_at, trim, parse_uint, parse_digits,
  lowercase, to_ascii_lowercase,
}
use wrtg.Mtproto.Handshake.{valid_dc}
use wrtg.Prelude.Trim.{trim-kept}
use wrtg.DcLearn.{is_ipv4, is_octet, parse_line, parse_words, parse_i32, persisted_line}

abbrev is_plain : ℕ → Bool
is_plain c = is_ascii_digit c || c == b'.'

split_at-nonempty : (p : ℕ → Bool) (s : Bytes) → is_empty (split_at p s) ≡ false
unfolding split_at
split_at-nonempty p [] = refl
split_at-nonempty p (c ∷ s) = step (split_at p s) (split_at-nonempty p s)
  where
    step :
        (ps : List Bytes)
        → is_empty ps ≡ false
        → is_empty {A = Bytes} (elim ps as (λ x. List Bytes) [
          | [] ↦ []
          | piece ∷ pieces ↦ if p c then [] ∷ piece ∷ pieces else (c ∷ piece) ∷ pieces
        ])
          ≡ false
    step [] h = h
    step (piece ∷ pieces) h = ground arith

abbrev not_digits : List Bytes → Bool
not_digits = any (λ piece. any (λ c. not (is_ascii_digit c)) piece)

-- Text whose pieces between the dots hold digits only.
pieces-plain :
    (s : Bytes)
    → not_digits (split_at (λ c. c == b'.') s) ≡ false
    → any (λ c. not (is_plain c)) s ≡ false
unfolding split_at
pieces-plain [] h = refl
pieces-plain (c ∷ s) h =
    step (split_at (λ c. c == b'.') s) (split_at-nonempty (λ c. c == b'.') s) (pieces-plain s) h
  where
    step :
        (ps : List Bytes)
        → is_empty ps ≡ false
        → (not_digits ps ≡ false → any (λ c. not (is_plain c)) s ≡ false)
        → not_digits (elim ps as (λ x. List Bytes) [
          | [] ↦ []
          | piece ∷ pieces ↦ if c == b'.' then [] ∷ piece ∷ pieces else (c ∷ piece) ∷ pieces
        ])
          ≡ false
        → any (λ c. not (is_plain c)) (c ∷ s) ≡ false
    step [] e k g = absurd (ground arith)
    step (piece ∷ pieces) e k g = ground arith

octet-digits : (p : Bytes) → is_octet p ≡ true → any (λ c. not (is_ascii_digit c)) p ≡ false
unfolding is_octet
octet-digits p h =
    by_third (leb 1 (length p)) (leb (length p) 3) (any (λ c. not (is_ascii_digit c)) p) _ h
  where
    by_third : (a b x y : Bool) → (a && (b && (not x && y))) ≡ true → x ≡ false
    by_third a b x y e = ground arith

octets-digits : (ps : List Bytes) → any (λ p. not (is_octet p)) ps ≡ false → not_digits ps ≡ false
octets-digits [] h = refl
octets-digits (p ∷ ps) h = both (octet-digits p (ground arith)) (octets-digits ps (ground arith))
  where
    both :
        any (λ c. not (is_ascii_digit c)) p ≡ false
        → not_digits ps ≡ false
        → not_digits (p ∷ ps) ≡ false
    both a b = rw (a, b) refl

is_ipv4-plain : (ip : Bytes) → is_ipv4 ip ≡ true → any (λ c. not (is_plain c)) ip ≡ false
unfolding is_ipv4
is_ipv4-plain ip h = pieces-plain ip (octets-digits (split_at (λ c. c == b'.') ip) (ground arith))

pub split_at-none : (p : ℕ → Bool) (s : Bytes) → any p s ≡ false → split_at p s ≡ s ∷ []
unfolding split_at
split_at-none p [] h = refl
split_at-none p (c ∷ s) h = rw (split_at-none p s (ground arith)) (ground arith)

pub split_at-first :
    (p : ℕ → Bool) (s : Bytes) (d : ℕ) (t w : Bytes) (ws : List Bytes)
    → any p s ≡ false
    → p d ≡ true
    → split_at p t ≡ w ∷ ws
    → split_at p (s ++ (d ∷ t)) ≡ s ∷ w ∷ ws
unfolding split_at
split_at-first p [] d t w ws h k e = rw (e, k) refl
split_at-first p (c ∷ s) d t w ws h k e =
    rw (split_at-first p s d t w ws (ground arith) k e) (ground arith)

plain-not_space : (c : ℕ) → is_plain c ≡ true → is_whitespace c ≡ false
plain-not_space c h = ground arith

not_spaces : (s : Bytes) → any (λ c. not (is_plain c)) s ≡ false → any is_whitespace s ≡ false
not_spaces [] h = refl
not_spaces (c ∷ s) h = rw (plain-not_space c (ground arith), not_spaces s (ground arith)) refl

any-append :
    (p : ℕ → Bool) (s t : Bytes) → any p s ≡ false → any p t ≡ false → any p (s ++ t) ≡ false
any-append p [] t h k = k
any-append p (c ∷ s) t h k = rw (any-append p s t (ground arith) k) (ground arith)

not_hashes : (s : Bytes) → any (λ c. not (is_plain c)) s ≡ false → any (λ c. c == b'#') s ≡ false
not_hashes [] h = refl
not_hashes (c ∷ s) h = rw (not_hash c (ground arith), not_hashes s (ground arith)) refl
  where
    not_hash : (c : ℕ) → is_plain c ≡ true → (c == b'#') ≡ false
    not_hash c h = ground arith

empty-no_ipv4 : is_ipv4 [] ≡ false
unfolding is_ipv4 split_at
empty-no_ipv4 = refl

-- A line of an address and of text `u` that ends in `d`.
parse_line-address :
    (ip u : Bytes) (d : ℕ) (w : Bytes) (ws : List Bytes)
    → is_ipv4 ip ≡ true
    → any (λ c. c == b'#') (u ++ (d ∷ [])) ≡ false
    → is_whitespace d ≡ false
    → split_at is_whitespace (u ++ (d ∷ [])) ≡ w ∷ ws
    → parse_line (ip ++ (b' ' ∷ (u ++ (d ∷ []))))
      ≡ parse_words (ip ∷ keep (λ w. not (is_empty w)) (w ∷ ws))
unfolding parse_line
parse_line-address [] u d w ws v h k e = absurd (ground (arith, empty-no_ipv4))
parse_line-address (c ∷ ip) u d w ws v h k e =
    rw
      (
        parse_line,
        split_at-none (λ c. c == b'#') text no_hash,
        whole,
        split_at-first is_whitespace (c ∷ ip) b' ' (u ++ (d ∷ [])) w ws (not_spaces (c ∷ ip) plain)
            refl e,
      )
      refl
  where
    first_plain : (b r : Bool) → (not b || r) ≡ false → b ≡ true
    first_plain b r h = ground arith

    text : Bytes
    text = c ∷ (ip ++ (b' ' ∷ (u ++ (d ∷ []))))

    plain : any (λ c. not (is_plain c)) (c ∷ ip) ≡ false
    plain = is_ipv4-plain (c ∷ ip) v

    no_hash : any (λ c. c == b'#') text ≡ false
    no_hash =
        any-append (λ c. c == b'#') (c ∷ ip) (b' ' ∷ (u ++ (d ∷ []))) (not_hashes (c ∷ ip) plain) h

    whole : trim text ≡ text
    whole =
        ap (λ t. trim (c ∷ t)) (sym (append_assoc ip (b' ' ∷ u) (d ∷ [])))
        ∙ trim-kept c (ip ++ (b' ' ∷ u)) d (plain-not_space c (first_plain (is_plain c) _ plain)) k
        ∙ ap (◌∷◌ c) (append_assoc ip (b' ' ∷ u) (d ∷ []))

each_dc :
    (P : ℕ → Type 0) → P 1 → P 2 → P 3 → P 4 → P 5 → P 203 → (n : ℕ) → valid_dc (pos n) ≡ true → P n
unfolding valid_dc
each_dc P p1 p2 p3 p4 p5 p203 n h = elim (Bool-cases (n == 1)) [
  | inl e ↦ is P n 1 e p1
  | inr e1 ↦ elim (Bool-cases (n == 2)) [
    | inl e ↦ is P n 2 e p2
    | inr e2 ↦ elim (Bool-cases (n == 3)) [
      | inl e ↦ is P n 3 e p3
      | inr e3 ↦ elim (Bool-cases (n == 4)) [
        | inl e ↦ is P n 4 e p4
        | inr e4 ↦ elim (Bool-cases (n == 5)) [
          | inl e ↦ is P n 5 e p5
          | inr e5 ↦ is P n 203 (ground arith) p203
        ]
      ]
    ]
  ]
]
  where
    is : (P : ℕ → Type 0) (n k : ℕ) → (n == k) ≡ true → P k → P n
    is P n k e p = subst P (sym ((==_iff n k).0 e)) p

read_as :
    (ip u : Bytes) (d : ℕ) (w : Bytes) (ws : List Bytes) (entry : ℤ × Bool)
    → is_ipv4 ip ≡ true
    → any (λ c. c == b'#') (u ++ (d ∷ [])) ≡ false
    → is_whitespace d ≡ false
    → split_at is_whitespace (u ++ (d ∷ [])) ≡ w ∷ ws
    → parse_words (ip ∷ keep (λ w. not (is_empty w)) (w ∷ ws))
      ≡ (if is_ipv4 ip then some (ip, entry) else none)
    → parse_line (ip ++ (b' ' ∷ (u ++ (d ∷ [])))) ≡ some (ip, entry)
read_as ip u d w ws entry v h k e q = parse_line-address ip u d w ws v h k e ∙ q ∙ rw (v) refl

-- What is learned stands in the next load: the line that is persisted for an address and a datacenter is read
-- back as they are.
pub parse_line-persisted_line :
    (ip : Bytes) (dc : ℤ) (is_media : Bool)
    → is_ipv4 ip ≡ true
    → valid_dc dc ≡ true
    → parse_line (persisted_line ip (dc, is_media)) ≡ some (ip, (dc, is_media))
unfolding persisted_line parse_i32 parse_uint parse_digits split_at valid_dc lowercase
    to_ascii_lowercase
parse_line-persisted_line ip (negsuc n) is_media v d = absurd (ground arith)
parse_line-persisted_line ip (pos n) true v d =
    each_dc (λ n. parse_line (persisted_line ip (pos n, true)) ≡ some (ip, (pos n, true)))
      (read_as ip (bytes "1 medi") b'a' (bytes "1") (bytes "media" ∷ []) (pos 1, true) v refl refl
        refl refl)
      (read_as ip (bytes "2 medi") b'a' (bytes "2") (bytes "media" ∷ []) (pos 2, true) v refl refl
        refl refl)
      (read_as ip (bytes "3 medi") b'a' (bytes "3") (bytes "media" ∷ []) (pos 3, true) v refl refl
        refl refl)
      (read_as ip (bytes "4 medi") b'a' (bytes "4") (bytes "media" ∷ []) (pos 4, true) v refl refl
        refl refl)
      (read_as ip (bytes "5 medi") b'a' (bytes "5") (bytes "media" ∷ []) (pos 5, true) v refl refl
        refl refl)
      (read_as ip (bytes "203 medi") b'a' (bytes "203") (bytes "media" ∷ []) (pos 203, true) v refl
        refl refl refl)
      n d
parse_line-persisted_line ip (pos n) false v d =
    each_dc (λ n. parse_line (persisted_line ip (pos n, false)) ≡ some (ip, (pos n, false)))
      (read_as ip ([]) b'1' (bytes "1") [] (pos 1, false) v refl refl refl refl)
      (read_as ip ([]) b'2' (bytes "2") [] (pos 2, false) v refl refl refl refl)
      (read_as ip ([]) b'3' (bytes "3") [] (pos 3, false) v refl refl refl refl)
      (read_as ip ([]) b'4' (bytes "4") [] (pos 4, false) v refl refl refl refl)
      (read_as ip ([]) b'5' (bytes "5") [] (pos 5, false) v refl refl refl refl)
      (read_as ip (bytes "20") b'3' (bytes "203") [] (pos 203, false) v refl refl refl refl) n d
