-- ===== src/Splitter/Lengths.antt =====
-- What `next_packet_len` depends on: the bytes from the offset on, and no more of them than it says.
use wrtg.Prelude.{
  ℕ, ◌+◌, ◌≤◌, ◌<◌, ◌≡◌, ◌≢◌, refl, [], ◌∷◌, ◌++◌, arith, length, length-append, bit_and, ◌*◌, ◌%◌,
  ◌^◌, ◌⊎◌, inl, drop, get_or-drop, drop-drop,
}
use wrtg.Prelude.Int.{ℤ, pos, negsuc}
use wrtg.Prelude.Bytes.{Bytes}
use wrtg.Splitter.{next_packet_len, next_abridged_len, next_intermediate_len, checked_len}

-- The length of the packet that stands first in a buffer.
abbrev pub head : ℕ → Bytes → ℤ
head proto p = next_packet_len proto p 0 (length p)

pub next_packet_len-drop :
    (proto : ℕ) (plain : Bytes) (offset avail : ℕ)
    → next_packet_len proto plain offset avail ≡ next_packet_len proto (drop offset plain) 0 avail
unfolding next_packet_len next_abridged_len next_intermediate_len
next_packet_len-drop proto plain offset avail =
    ground (arith, get_or-drop offset 0 plain 0, drop-drop offset 1 plain, drop-drop offset 0 plain)

-- Whether a packet of a known length is complete.
checked_len_stays :
    (n a b : ℕ) → a ≤ b → (checked_len n a ≡ negsuc 0) ⊎ (checked_len n b ≡ checked_len n a)
unfolding checked_len
checked_len_stays n a b h = ground arith

-- The two framings wait, or have decided for good.
abridged_stays :
    (p q : Bytes)
    → 0 < length p
    → (next_abridged_len p 0 (length p) ≡ negsuc 0)
      ⊎ (next_abridged_len (p ++ q) 0 (length (p ++ q)) ≡ next_abridged_len p 0 (length p))
unfolding next_abridged_len
abridged_stays [] q h = absurd (omega arith)
abridged_stays (a ∷ []) q h =
    ground (arith, checked_len_stays (1 + bit_and a 0x7f * 4) 1 (length (a ∷ q)))
abridged_stays (a ∷ b ∷ []) q h =
    ground (arith, checked_len_stays (1 + bit_and a 0x7f * 4) 2 (length (a ∷ b ∷ q)))
abridged_stays (a ∷ b ∷ c ∷ []) q h =
    ground (arith, checked_len_stays (1 + bit_and a 0x7f * 4) 3 (length (a ∷ b ∷ c ∷ q)))
abridged_stays (a ∷ b ∷ c ∷ d ∷ p) q h = ground (
  arith,
  length-append p q,
  checked_len_stays (1 + bit_and a 0x7f * 4) (length (a ∷ b ∷ c ∷ d ∷ p))
      (length (a ∷ b ∷ c ∷ d ∷ p ++ q)),
  checked_len_stays (4 + (b + c * 256 + d * 65536) * 4) (length (a ∷ b ∷ c ∷ d ∷ p))
      (length (a ∷ b ∷ c ∷ d ∷ p ++ q)),
)

intermediate_stays :
    (p q : Bytes)
    → (next_intermediate_len p 0 (length p) ≡ negsuc 0)
      ⊎ (next_intermediate_len (p ++ q) 0 (length (p ++ q)) ≡ next_intermediate_len p 0 (length p))
unfolding next_intermediate_len
intermediate_stays [] q = inl refl
intermediate_stays (a ∷ []) q = inl refl
intermediate_stays (a ∷ b ∷ []) q = inl refl
intermediate_stays (a ∷ b ∷ c ∷ []) q = inl refl
intermediate_stays (a ∷ b ∷ c ∷ d ∷ p) q = ground (
  arith,
  length-append p q,
  checked_len_stays (4 + (a + b * 256 + c * 65536 + d * 16777216) % 2 ^ 31)
      (length (a ∷ b ∷ c ∷ d ∷ p)) (length (a ∷ b ∷ c ∷ d ∷ p ++ q)),
)

-- A decision stands when more bytes come in.
pub head-append :
    (proto : ℕ) (p q : Bytes) → head proto p ≢ negsuc 0 → head proto (p ++ q) ≡ head proto p
unfolding next_packet_len
head-append proto [] q h = absurd (h refl)
head-append proto (a ∷ p) q h =
    ground (arith, h, abridged_stays (a ∷ p) q (omega arith), intermediate_stays (a ∷ p) q)

-- A packet lies within the buffer, and the only negative answer is -1.
pub head-le : (proto : ℕ) (p : Bytes) (n : ℕ) → head proto p ≡ pos n → n ≤ length p
unfolding next_packet_len next_abridged_len next_intermediate_len checked_len
head-le proto p n h = ground arith

pub head-negsuc : (proto : ℕ) (p : Bytes) (n : ℕ) → head proto p ≡ negsuc n → n ≡ 0
unfolding next_packet_len next_abridged_len next_intermediate_len checked_len
head-negsuc proto p n h = ground arith
