-- ===== src/Prelude/Utf8.antt =====
-- `String::from_utf8` and `String::from_utf8_lossy` of Rust's library, on bytes.
use Prim.Native.Nat.{ℕ, zero, suc}
use mathlib.Core.Path.{◌≡◌, refl}
use mathlib.Core.Bool.{Bool, true, false, ◌&&◌}
use mathlib.Core.List.{[], ◌∷◌, ◌++◌}
use native.Mathlib.Omega.{arith}
use wrtg.Prelude.Tests.{◌==◌, leb, ltb, if◌then◌else◌}
use wrtg.Prelude.Bytes.{Bytes}

-- What a lead byte asks for: how many bytes, and the bounds of the first; `bad` leads nothing.
pub data Lead : Type 0 where
  bad : Lead
  wants : ℕ → ℕ → ℕ → Lead

unfoldable pub lead : ℕ → Lead
lead c =
    if ltb c 0x80
    then wants 0 0x80 0xbf
    else if leb 0xc2 c && leb c 0xdf
    then wants 1 0x80 0xbf
    else if c == 0xe0
    then wants 2 0xa0 0xbf
    else if c == 0xed
    then wants 2 0x80 0x9f
    else if leb 0xe1 c && leb c 0xef
    then wants 2 0x80 0xbf
    else if c == 0xf0
    then wants 3 0x90 0xbf
    else if leb 0xf1 c && leb c 0xf3
    then wants 3 0x80 0xbf
    else if c == 0xf4
    then wants 3 0x80 0x8f
    else bad

-- The next bytes, of which `need` belong to the character begun.
unfoldable pub is_utf8_from : ℕ → ℕ → ℕ → Bytes → Bool
is_utf8_from zero lo hi [] = true
is_utf8_from (suc need) lo hi [] = false
is_utf8_from zero lo hi (c ∷ s) = elim (lead c) [
  | bad ↦ false
  | wants need lo' hi' ↦ is_utf8_from need lo' hi' s
]
is_utf8_from (suc need) lo hi (c ∷ s) = (leb lo c && leb c hi) && is_utf8_from need 0x80 0xbf s

-- `String::from_utf8(..).is_ok()`
unfoldable pub is_utf8 : Bytes → Bool
is_utf8 s = is_utf8_from 0 0x80 0xbf s

-- U+FFFD
abbrev pub replacement : Bytes
replacement = 0xef ∷ 0xbf ∷ 0xbd ∷ []

-- `begun` holds the bytes of the character begun; a character that breaks off is replaced once.
unfoldable pub lossy_from : Bytes → ℕ → ℕ → ℕ → Bytes → Bytes
lossy_from begun zero lo hi [] = []
lossy_from begun (suc need) lo hi [] = replacement
lossy_from begun zero lo hi (c ∷ s) = elim (lead c) [
  | bad ↦ replacement ++ lossy_from [] 0 0x80 0xbf s
  | wants zero lo' hi' ↦ c ∷ lossy_from [] 0 0x80 0xbf s
  | wants (suc need) lo' hi' ↦ lossy_from (c ∷ []) (suc need) lo' hi' s
]
lossy_from begun (suc zero) lo hi (c ∷ s) = elim (leb lo c && leb c hi) [
  | true ↦ begun ++ (c ∷ lossy_from [] 0 0x80 0xbf s)
  | false ↦ elim (lead c) [
    | bad ↦ replacement ++ (replacement ++ lossy_from [] 0 0x80 0xbf s)
    | wants zero lo' hi' ↦ replacement ++ (c ∷ lossy_from [] 0 0x80 0xbf s)
    | wants (suc need) lo' hi' ↦ replacement ++ lossy_from (c ∷ []) (suc need) lo' hi' s
  ]
]
lossy_from begun (suc (suc need)) lo hi (c ∷ s) = elim (leb lo c && leb c hi) [
  | true ↦ lossy_from (begun ++ (c ∷ [])) (suc need) 0x80 0xbf s
  | false ↦ elim (lead c) [
    | bad ↦ replacement ++ (replacement ++ lossy_from [] 0 0x80 0xbf s)
    | wants zero lo' hi' ↦ replacement ++ (c ∷ lossy_from [] 0 0x80 0xbf s)
    | wants (suc need') lo' hi' ↦ replacement ++ lossy_from (c ∷ []) (suc need') lo' hi' s
  ]
]

unfoldable pub from_utf8_lossy : Bytes → Bytes
from_utf8_lossy s = lossy_from [] 0 0x80 0xbf s

abbrev pub is_ascii : Bytes → Bool
is_ascii [] = true
is_ascii (c ∷ s) = ltb c 0x80 && is_ascii s

pub is_utf8_ascii : (s : Bytes) → is_ascii s ≡ true → is_utf8 s ≡ true
unfolding is_utf8 is_utf8_from lead
is_utf8_ascii [] h = refl
is_utf8_ascii (c ∷ s) h = ground (arith, is_utf8_ascii s)

pub from_utf8_lossy_ascii : (s : Bytes) → is_ascii s ≡ true → from_utf8_lossy s ≡ s
unfolding from_utf8_lossy lossy_from lead
from_utf8_lossy_ascii [] h = refl
from_utf8_lossy_ascii (c ∷ s) h = ground (arith, from_utf8_lossy_ascii s)

-- Bytes that lead nothing come back three times as long.
pub from_utf8_lossy_bad :
    (c : ℕ) (s : Bytes) → lead c ≡ bad → from_utf8_lossy (c ∷ s) ≡ replacement ++ from_utf8_lossy s
unfolding from_utf8_lossy lossy_from
from_utf8_lossy_bad c s h = rw (lossy_from, h) refl
