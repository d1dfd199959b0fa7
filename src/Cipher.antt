-- ===== src/Cipher.antt =====
-- The AES-256-CTR stream of the crates `aes` and `ctr`, which the program only calls. What it relies
-- on: a stream of bytes that depends on the key and the vector, combined with the text by exclusive
-- or, and a position that moves on by the length of the text.
pub mod Sample
use wrtg.Prelude.{
  ℕ, zero, suc, ◌+◌, ◌<◌, ◌≡◌, ◌∙◌, refl, ap, Option, none, some, List, [], ◌∷◌, ◌++◌, arith,
  length, length-append, bit_xor, ◌^◌, All,
}
use wrtg.Prelude.Bytes.{Bytes}
use wrtg.Prelude.Bits.{bit_xor_cancel, bit_xor-lt}

-- The text combined with the key bytes from position `i` on.
unfoldable pub xor_from : (ℕ → ℕ) → ℕ → Bytes → Bytes
xor_from k i [] = []
xor_from k i (b ∷ bs) = bit_xor b (k i) ∷ xor_from k (suc i) bs

pub record Cipher : Type 1 where
  pub Stream : Type 0
  -- `Ctr128BE::<Aes256>::new_from_slices`; `none` is `InvalidLength`.
  pub new_ctr : Bytes → Bytes → Option Stream
  -- `apply_keystream`: the text in place, and the stream moved on.
  pub apply_keystream : Stream → Bytes → Bytes × Stream
  pub keystream : Stream → ℕ → ℕ
  pub advance : Stream → ℕ → Stream
  pub new_ctr_ok :
      (key iv : Bytes) → length key ≡ 32 → length iv ≡ 16 → (s : Stream) × (new_ctr key iv ≡ some s)
  pub apply_lem :
      (s : Stream) (text : Bytes)
      → apply_keystream s text ≡ (xor_from (keystream s) 0 text, advance s (length text))
  pub keystream-advance : (s : Stream) (n i : ℕ) → keystream (advance s n) i ≡ keystream s (n + i)
  pub advance-advance : (s : Stream) (n m : ℕ) → advance (advance s n) m ≡ advance s (n + m)
  pub keystream-lt : (s : Stream) (i : ℕ) → keystream s i < 256

pub length-xor_from : (k : ℕ → ℕ) (i : ℕ) (xs : Bytes) → length (xor_from k i xs) ≡ length xs
unfolding xor_from
length-xor_from k i [] = refl
length-xor_from k i (x ∷ xs) = ap suc (length-xor_from k (suc i) xs)

pub xor_from-append :
    (k : ℕ → ℕ) (i : ℕ) (xs ys : Bytes)
    → xor_from k i (xs ++ ys) ≡ xor_from k i xs ++ xor_from k (i + length xs) ys
unfolding xor_from
xor_from-append k i [] ys = ap (λ j. xor_from k j ys) (omega arith)
xor_from-append k i (x ∷ xs) ys = ap (◌∷◌ (bit_xor x (k i))) (
    xor_from-append k (suc i) xs ys
    ∙ ap (λ j. xor_from k (suc i) xs ++ xor_from k j ys) (omega arith))

-- The same stretch of a stream twice gives the text back.
pub xor_from_cancel : (k : ℕ → ℕ) (i : ℕ) (xs : Bytes) → xor_from k i (xor_from k i xs) ≡ xs
unfolding xor_from
xor_from_cancel k i [] = refl
xor_from_cancel k i (x ∷ xs) =
    rw (bit_xor_cancel x (k i)) (ap (◌∷◌ x) (xor_from_cancel k (suc i) xs))

pub xor_from_shift :
    (k l : ℕ → ℕ) (n i : ℕ) (xs : Bytes)
    → ((j : ℕ) → l j ≡ k (n + j))
    → xor_from l i xs ≡ xor_from k (n + i) xs
unfolding xor_from
xor_from_shift k l n i [] h = refl
xor_from_shift k l n i (x ∷ xs) h = rw (h i) (
    ap (◌∷◌ (bit_xor x (k (n + i))))
      (xor_from_shift k l n (suc i) xs h ∙ ap (λ j. xor_from k j xs) (omega arith)))

module _ (C : Cipher) where
  open C use {
    Stream, apply_keystream, apply_lem, keystream, advance, keystream-advance, advance-advance,
  }

  -- A text may be handed to the stream in pieces.
  pub apply-append :
      (s : Stream) (xs ys : Bytes)
      → apply_keystream s (xs ++ ys) ≡ (
        (apply_keystream s xs).0 ++ (apply_keystream (apply_keystream s xs).1 ys).0,
        (apply_keystream (apply_keystream s xs).1 ys).1,
      )
  apply-append s xs ys =
      rw
        (
          apply_lem s (xs ++ ys),
          apply_lem s xs,
          apply_lem (advance s (length xs)) ys,
          xor_from-append (keystream s) 0 xs ys,
          length-append xs ys,
          advance-advance s (length xs) (length ys),
          moved,
        )
        refl
    where
      moved :
          xor_from (keystream (advance s (length xs))) 0 ys
          ≡ xor_from (keystream s) (0 + length xs) ys
      moved =
          xor_from_shift (keystream s) (keystream (advance s (length xs))) (length xs) 0 ys
            (keystream-advance s (length xs))
          ∙ ap (λ j. xor_from (keystream s) j ys) (omega arith)

  pub length-apply : (s : Stream) (xs : Bytes) → length (apply_keystream s xs).0 ≡ length xs
  length-apply s xs = rw (apply_lem s xs) (length-xor_from (keystream s) 0 xs)
