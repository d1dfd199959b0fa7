-- ===== src/Mtproto/RelayInit/Front.antt =====
-- The first bytes of a packet: what the tests and the key read.
use wrtg.Prelude.{
  ℕ, ◌+◌, ◌≤◌, ◌≡◌, ◌∙◌, refl, sym, [], ◌∷◌, ◌++◌, arith, length, take, drop, take-append_le,
  drop-append_le, length-drop, get_or,
}
use wrtg.Prelude.Bytes.{Bytes}
use wrtg.Mtproto.Handshake.{key_of, iv_of, is_reserved}

-- What the tests and the key read of a packet lies in front of the tail.
module _ (a b c : Bytes) (long : 56 ≤ length a) where
  pub drop_front : (n : ℕ) → n ≤ 56 → drop n (a ++ b) ≡ drop n a ++ b
  drop_front n h = drop-append_le n a b (omega (arith, long, h))

  take_front : (n m : ℕ) → n + m ≤ 56 → take m (drop n (a ++ b)) ≡ take m (drop n (a ++ c))
  take_front n m h =
      rw
        (
          drop-append_le n a b (omega (arith, long, h)),
          drop-append_le n a c (omega (arith, long, h)),
        )
        (take-append_le m (drop n a) b (omega (arith, long, h, length-drop n a))
          ∙ sym (take-append_le m (drop n a) c (omega (arith, long, h, length-drop n a))))

  first_byte : get_or (a ++ b) 0 0 ≡ get_or (a ++ c) 0 0
  first_byte = by_front a long
    where
      by_front : (x : Bytes) → 56 ≤ length x → get_or (x ++ b) 0 0 ≡ get_or (x ++ c) 0 0
      by_front [] h = absurd (omega arith)
      by_front (y ∷ x) h = refl

  pub same_key : key_of (a ++ b) ≡ key_of (a ++ c)
  unfolding key_of
  same_key = take_front 8 32 (omega arith)

  pub same_iv : iv_of (a ++ b) ≡ iv_of (a ++ c)
  unfolding iv_of
  same_iv = take_front 40 16 (omega arith)

  pub same_reserved : is_reserved (a ++ b) ≡ is_reserved (a ++ c)
  unfolding is_reserved
  same_reserved = rw (first_byte, take_front 0 4 (omega arith), take_front 4 4 (omega arith)) refl
