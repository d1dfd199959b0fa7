-- ===== src/Cipher/Sample.antt =====
-- A stream cipher for the examples: key bytes that step by seven from a seed of key and vector.
use wrtg.Prelude.{
  ℕ, ◌+◌, ◌*◌, ◌%◌, ◌<◌, ◌≡◌, refl, ap, arith, ◌&&◌, ◌==◌, if◌then◌else◌, Option, none, some,
  length, get_or,
}
use wrtg.Prelude.Bytes.{Bytes}
use wrtg.Cipher.{Cipher, xor_from}

-- The seed and the offset.
abbrev Position : Type 0
Position = ℕ × ℕ

abbrev sample_keystream : Position → ℕ → ℕ
sample_keystream (seed, offset) i = (seed + (offset + i) * 7) % 256

abbrev sample_advance : Position → ℕ → Position
sample_advance (seed, offset) n = (seed, offset + n)

abbrev sample_new_ctr : Bytes → Bytes → Option Position
sample_new_ctr key iv =
    if length key == 32 && length iv == 16
    then some (get_or key 0 0 + get_or key 31 0 * 3 + get_or iv 0 0 * 5, 0)
    else none

pub new_ctr_sample :
    (key iv : Bytes)
    → length key ≡ 32
    → length iv ≡ 16
    → (s : Position) × (sample_new_ctr key iv ≡ some s)
new_ctr_sample key iv k v =
    ((get_or key 0 0 + get_or key 31 0 * 3 + get_or iv 0 0 * 5, 0), rw (k, v) refl)

pub steps :
    (s : Position) (n i : ℕ) → sample_keystream (sample_advance s n) i ≡ sample_keystream s (n + i)
steps (seed, offset) n i = ap (λ t. (seed + t * 7) % 256) (omega arith)

pub twice :
    (s : Position) (n m : ℕ) → sample_advance (sample_advance s n) m ≡ sample_advance s (n + m)
twice (seed, offset) n m = ap (λ t. (seed, t)) (omega arith)

pub below : (s : Position) (i : ℕ) → sample_keystream s i < 256
below (seed, offset) i = omega arith

abbrev pub sample : Cipher
sample = record {
  Stream = Position;
  new_ctr = sample_new_ctr;
  apply_keystream =
      λ s text. (xor_from (sample_keystream s) 0 text, sample_advance s (length text));
  keystream = sample_keystream;
  advance = sample_advance;
  new_ctr_ok = new_ctr_sample;
  apply_lem = λ s text. refl;
  keystream-advance = steps;
  advance-advance = twice;
  keystream-lt = below;
}
