-- ===== src/Bridge/Passthrough/Own.antt =====
-- main.rs and bridge.rs: the address of the connection's own socket, as a target.
use wrtg.Prelude.{
  ℕ, ◌+◌, ◌/◌, ◌%◌, ◌<◌, ◌≡◌, ◌∙◌, ap, refl, arith, Bool, true, false, ◌&&◌, inl, inr, some, [],
  ◌∷◌, ◌++◌, ◌==◌, ltb, if◌then◌else◌, any, Bool-cases,
}
use wrtg.Prelude.Eq.{ℕ_eq, list_eq, ◌=?◌, =?_iff}
use wrtg.Prelude.Bits.{agree, table}
use wrtg.Prelude.Bytes.{Bytes, split_at, parse_uint}
use wrtg.Prelude.Durations.{unwrap_or}
use wrtg.DcLearn.{is_octet, is_ipv4}
use wrtg.DcLearn.Persist.{split_at-first, split_at-none}
use wrtg.Bridge.Connection.{parse_ipv4, is_self_target}

-- A number below 256 in decimal.
abbrev pub octet_text : ℕ → Bytes
octet_text n =
    if ltb n 10
    then (48 + n) ∷ []
    else if ltb n 100
    then (48 + n / 10) ∷ (48 + n % 10) ∷ []
    else (48 + n / 100) ∷ (48 + n / 10 % 10) ∷ (48 + n % 10) ∷ []

-- An IPv4 address as it is written.
abbrev pub ipv4_text : ℕ → ℕ → ℕ → ℕ → Bytes
ipv4_text a b c d =
    octet_text a ++ (46 ∷ octet_text b ++ (46 ∷ octet_text c ++ (46 ∷ octet_text d)))

abbrev as_number : Bool → ℕ
as_number b = if b then 1 else 0

is_true : (b : Bool) → as_number b ≡ 1 → b ≡ true
is_true true h = refl
is_true false h = absurd (omega arith)

is_false : (b : Bool) → as_number b ≡ 0 → b ≡ false
is_false false h = refl
is_false true h = absurd (omega arith)

octet_text-is_octet : (n : ℕ) → n < 256 → is_octet (octet_text n) ≡ true
unfolding agree is_octet parse_uint
octet_text-is_octet n h =
    is_true (is_octet (octet_text n))
      (table (λ x. as_number (is_octet (octet_text x))) (λ x. 1) 256 n refl h)

octet_text-parsed : (n : ℕ) → n < 256 → unwrap_or (parse_uint 256 (octet_text n)) 0 ≡ n
unfolding agree parse_uint
octet_text-parsed n h =
    table (λ x. unwrap_or (parse_uint 256 (octet_text x)) 0) (λ x. x) 256 n refl h

octet_text-no_dot : (n : ℕ) → n < 256 → any (λ c. c == 46) (octet_text n) ≡ false
unfolding agree
octet_text-no_dot n h =
    is_false (any (λ c. c == 46) (octet_text n))
      (table (λ x. as_number (any (λ c. c == 46) (octet_text x))) (λ x. 0) 256 n refl h)

module _ (a b c d : ℕ) (ha : a < 256) (hb : b < 256) (hc : c < 256) (hd : d < 256) where
  pieces :
      split_at (λ x. x == 46) (ipv4_text a b c d)
      ≡ octet_text a ∷ octet_text b ∷ octet_text c ∷ octet_text d ∷ []
  pieces =
      split_at-first (λ x. x == 46) (octet_text a) 46 _ _ _ (octet_text-no_dot a ha) refl
        (split_at-first (λ x. x == 46) (octet_text b) 46 _ _ _ (octet_text-no_dot b hb) refl
          (split_at-first (λ x. x == 46) (octet_text c) 46 _ _ _ (octet_text-no_dot c hc) refl
            (split_at-none (λ x. x == 46) (octet_text d) (octet_text-no_dot d hd))))

  parsed : parse_ipv4 (ipv4_text a b c d) ≡ some (a ∷ b ∷ c ∷ d ∷ [])
  unfolding parse_ipv4 is_ipv4
  parsed =
      rw
        (
          pieces,
          octet_text-is_octet a ha,
          octet_text-is_octet b hb,
          octet_text-is_octet c hc,
          octet_text-is_octet d hd,
          octet_text-parsed a ha,
          octet_text-parsed b hb,
          octet_text-parsed c hc,
          octet_text-parsed d hd,
        )
        refl

  -- The test for a target that is the connection's own socket.
  abbrev pub is_own : ℕ → Bytes × ℕ → Bool
  is_own port (ip, p) = ip =? ipv4_text a b c d && p == port

  pub not_own :
      (port : ℕ) (ip : Bytes) (p : ℕ)
      → is_self_target (some (some (a ∷ b ∷ c ∷ d ∷ []), port)) ip p ≡ false
      → is_own port (ip, p) ≡ false
  unfolding is_self_target
  not_own port ip p h = elim (Bool-cases (ip =? ipv4_text a b c d)) [
    | inr other ↦ rw other refl
    | inl same ↦ elim (Bool-cases (p == port)) [
      | inr other ↦ rw (same, other) refl
      | inl here ↦ absurd (ground (arith, h, self ((=?_iff ip (ipv4_text a b c d)).0 same), here))
    ]
  ]
    where
      self : ip ≡ ipv4_text a b c d → parse_ipv4 ip ≡ some (a ∷ b ∷ c ∷ d ∷ [])
      self e = ap parse_ipv4 e ∙ parsed
