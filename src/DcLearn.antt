-- ===== src/DcLearn.antt =====
-- crates/wrtg/src/dc_learn.rs: the addresses that have been seen to serve a datacenter.
-- The static map is an argument, and so is the content of the two files, `none` for one that cannot be
-- read. A line is cut at the line feed only, since a return before it is white space to `parse_line`.
pub mod Precedence
pub mod Persist
mod Examples
use wrtg.Prelude.{
  ℕ, ◌+◌, ◌-◌, ◌*◌, ◌^◌, Bool, true, false, not, ◌&&◌, ◌||◌, Option, none, some, List, [], ◌∷◌,
  ◌++◌, ltb, leb, ◌==◌, if◌then◌else◌, length, keep, map, any,
}
use wrtg.Prelude.Int.{ℤ, pos, negsuc, le_ℤ}
use wrtg.Prelude.Eq.{ℕ_eq, ℤ_eq, Bool_eq, pair_eq, list_eq, ◌=?◌}
use wrtg.Prelude.Map
use wrtg.Prelude.Map.{Map}
use wrtg.Prelude.Bytes.{
  Bytes, bytes, is_empty, is_whitespace, trim, lowercase, split_at, parse_uint, is_ascii_digit,
  starts_with,
}
use wrtg.Mtproto.Handshake.{valid_dc}
use wrtg.Mtproto.Routing.{dc_from_hardcoded, decimal}

abbrev pub Learned : Type 0
Learned = Map Bytes (ℤ × Bool)

-- One to three digits, no zero before another digit, at most 255.
unfoldable pub is_octet : Bytes → Bool
is_octet s =
    leb 1 (length s)
    && (leb (length s) 3
        && (not (any (λ c. not (is_ascii_digit c)) s)
            && ((length s == 1 || not (starts_with s (bytes "0")))
                && (elim (parse_uint 256 s) [ none ↦ false | some n ↦ true ]))))

-- `ip.parse::<Ipv4Addr>()` succeeds.
unfoldable pub is_ipv4 : Bytes → Bool
is_ipv4 s =
    let pieces = split_at (λ c. c == b'.') s in
    length pieces == 4 && not (any (λ p. not (is_octet p)) pieces)

abbrev negated : ℕ → ℤ
negated n = if n == 0 then pos 0 else negsuc (n - 1)

abbrev signed : Option ℕ → Option ℤ
signed none = none
signed (some n) = some (pos n)

-- `parse::<i32>()`
unfoldable pub parse_i32 : Bytes → Option ℤ
parse_i32 [] = none
parse_i32 (c ∷ s) =
    if c == b'-'
    then if starts_with s (bytes "+")
      then none
      else (elim (parse_uint (2 ^ 31 + 1) s) [ none ↦ none | some n ↦ some (negated n) ])
    else signed (parse_uint (2 ^ 31) (c ∷ s))

abbrev is_media_word : List Bytes → Bool
is_media_word [] = false
is_media_word (word ∷ words) =
    any (λ w. w =? lowercase word) (bytes "media" ∷ bytes "1" ∷ bytes "true" ∷ bytes "m" ∷ [])

abbrev checked : Bytes → Option ℤ → Bool → Option (Bytes × (ℤ × Bool))
checked ip none media = none
checked ip (some dc) media = if valid_dc dc then some (ip, (dc, media)) else none

abbrev parse_words : List Bytes → Option (Bytes × (ℤ × Bool))
parse_words [] = none
parse_words (ip ∷ []) = none
parse_words (ip ∷ dc ∷ words) =
    if is_ipv4 ip then checked ip (parse_i32 dc) (is_media_word words) else none

abbrev first_of : List Bytes → Bytes
first_of [] = []
first_of (piece ∷ pieces) = piece

-- `split_whitespace` gives no empty words, so a line of white space has none.
unfoldable pub parse_line : Bytes → Option (Bytes × (ℤ × Bool))
parse_line text =
    let line = trim (first_of (split_at (λ c. c == b'#') text)) in
    if is_empty line
    then none
    else parse_words (keep (λ w. not (is_empty w)) (split_at is_whitespace line))

-- The inner loop of `load`.
unfoldable pub load_lines : Learned → List Bytes → Learned
load_lines m [] = m
load_lines m (line ∷ lines) = elim (parse_line line) [
  | none ↦ load_lines m lines
  | some (ip, entry) ↦ load_lines (Map.insert m ip entry) lines
]

unfoldable pub load_file : Learned → Option Bytes → Learned
load_file m none = m
load_file m (some content) = load_lines m (split_at (λ c. c == b'\n') content)

-- The map that was there before is cleared.
-- `map.clear()`
abbrev pub cleared : Learned → Learned
cleared m = []

unfoldable pub load : Learned → Option Bytes → Option Bytes → Learned
load m learn_file manual_file = load_file (load_file (cleared m) learn_file) manual_file

unfoldable pub lookup : Learned → Bytes → Option (ℤ × Bool)
lookup m ip = Map.get m ip

-- The map, and the entry that is persisted.
unfoldable pub learn : Learned → Bytes → ℤ → Bool → Learned × Option (Bytes × (ℤ × Bool))
learn m ip dc is_media =
    if is_empty ip
      || (not (valid_dc dc) || (elim (dc_from_hardcoded ip) [ none ↦ false | some known ↦ true ]))
    then (m, none)
    else (elim (Map.get m ip) [
      | some entry ↦ (m, none)
      | none ↦ (Map.insert m ip (dc, is_media), some (ip, (dc, is_media)))
    ])

-- The order of pairs, as `sort_unstable` has it: `false` comes before `true`.
abbrev pub slot_before : ℤ × Bool → ℤ × Bool → Bool
slot_before (dc, media) (dc', media') = not (le_ℤ dc' dc) || (dc =? dc' && (not media && media'))

-- `sort_unstable` with `dedup`: a slot that is there is not put in again.
unfoldable pub put_slot : ℤ × Bool → List (ℤ × Bool) → List (ℤ × Bool)
put_slot slot [] = slot ∷ []
put_slot slot (s ∷ slots) =
    let rest = put_slot slot slots in
    if slot =? s then s ∷ slots else if slot_before slot s then slot ∷ s ∷ slots else s ∷ rest

unfoldable pub observed_slots : Learned → List (ℤ × Bool)
observed_slots [] = []
observed_slots ((ip, entry) ∷ m) = put_slot entry (observed_slots m)

-- `format!("{ip} {dc}{tag}")`
unfoldable pub persisted_line : Bytes → ℤ × Bool → Bytes
persisted_line ip (dc, is_media) =
    ip ++ (b' ' ∷ (decimal dc ++ (if is_media then bytes " media" else [])))
