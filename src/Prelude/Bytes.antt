-- ===== src/Prelude/Bytes.antt =====
-- Text as its bytes, and the library calls that the program makes on it.
use Prim.Native.Nat.{ℕ, ◌+◌, ◌-◌, ◌*◌, ◌^◌}
use Prim.Native.Char.{code}
use Prim.Native.String.{String}
use mathlib.Core.Bool.{Bool, true, false, ◌&&◌, ◌||◌}
use mathlib.Core.List.{List, [], ◌∷◌, map, reverse}
use mathlib.Core.Option.{Option, none, some}
use wrtg.Prelude.Tests.{◌==◌, leb, ltb, if◌then◌else◌}
use wrtg.Prelude.Eq.{ℕ_eq, eq_list}

abbrev pub Bytes : Type 0
Bytes = List ℕ

-- The bytes of an ASCII text.
abbrev pub bytes : String → Bytes
bytes String.[] = []
bytes (String.◌∷◌ c s) = code c ∷ bytes s

abbrev pub is_empty {ℓ} : {A : Type ℓ} → List A → Bool
is_empty [] = true
is_empty (x ∷ xs) = false

-- `u8::to_ascii_lowercase`
unfoldable pub to_ascii_lowercase : ℕ → ℕ
to_ascii_lowercase c = if leb b'A' c && leb c b'Z' then c + 32 else c

unfoldable pub lowercase : Bytes → Bytes
unfolding to_ascii_lowercase
lowercase = map to_ascii_lowercase

-- `char::is_whitespace` on ASCII: tab, line feed, vertical tab, form feed, return, space.
abbrev pub is_whitespace : ℕ → Bool
is_whitespace c = (leb 9 c && leb c 13) || c == 32

unfoldable pub trim_start : (ℕ → Bool) → Bytes → Bytes
trim_start p [] = []
trim_start p (c ∷ s) = let rest = trim_start p s in if p c then rest else c ∷ s

unfoldable pub trim_end : (ℕ → Bool) → Bytes → Bytes
unfolding trim_start
trim_end p s = reverse (trim_start p (reverse s))

-- `str::trim` on ASCII text.
unfoldable pub trim : Bytes → Bytes
unfolding trim_end
trim s = trim_end is_whitespace (trim_start is_whitespace s)

abbrev pub is_ascii_digit : ℕ → Bool
is_ascii_digit c = leb b'0' c && leb c b'9'

-- The digits of a decimal number, which must stay below `bound`; `none` at another byte.
unfoldable pub parse_digits : ℕ → ℕ → Bytes → Option ℕ
parse_digits bound n [] = some n
parse_digits bound n (c ∷ s) =
    let rest = parse_digits bound (n * 10 + (c - b'0')) s in
    if is_ascii_digit c && ltb (n * 10 + (c - b'0')) bound then rest else none

parse_unsigned : ℕ → Bytes → Option ℕ
unfolding parse_digits
parse_unsigned bound [] = none
parse_unsigned bound (c ∷ s) = parse_digits bound 0 (c ∷ s)

-- `str::parse` at an unsigned type of the given bound: a sign `+` is allowed, and a number is
-- wanted behind it.
unfoldable pub parse_uint : ℕ → Bytes → Option ℕ
unfolding parse_unsigned
parse_uint bound [] = none
parse_uint bound (c ∷ s) =
    if c == b'+' then parse_unsigned bound s else parse_unsigned bound (c ∷ s)

unfoldable pub parse_u64 : Bytes → Option ℕ
unfolding parse_uint
parse_u64 = parse_uint (2 ^ 64)

-- `s.starts_with(p)`
abbrev pub starts_with : Bytes → Bytes → Bool
starts_with s [] = true
starts_with [] (p ∷ ps) = false
starts_with (c ∷ s) (p ∷ ps) = c == p && starts_with s ps

-- `s.contains(p)`
abbrev pub contains : Bytes → Bytes → Bool
contains [] p = is_empty p
contains (c ∷ s) p = starts_with (c ∷ s) p || contains s p

-- `s.strip_suffix(p)`: what stands before the suffix.
abbrev pub strip_suffix : Bytes → Bytes → Option Bytes
strip_suffix [] p = if is_empty p then some [] else none
strip_suffix (c ∷ s) p =
    if eq_list {A = ℕ} (c ∷ s) p
    then some []
    else (elim (strip_suffix s p) [ none ↦ none | some before ↦ some (c ∷ before) ])

abbrev pub ends_with : Bytes → Bytes → Bool
ends_with s p = elim (strip_suffix s p) [ none ↦ false | some before ↦ true ]

-- `s.split(p)` at the bytes that `p` accepts: one piece more than there are such bytes.
unfoldable pub split_at : (ℕ → Bool) → Bytes → List Bytes
split_at p [] = [] ∷ []
split_at p (c ∷ s) = elim (split_at p s) [
  | [] ↦ []
  | piece ∷ pieces ↦ if p c then [] ∷ piece ∷ pieces else (c ∷ piece) ∷ pieces
]
