-- ===== src/DcLearn/Examples.antt =====
-- dc_learn.rs: two files that disagree about an address, and a line that is persisted.
use wrtg.Prelude.{◌≡◌, refl, true, false, [], ◌∷◌, Option, none, some}
use wrtg.Prelude.Bytes.{Bytes, bytes, split_at, parse_uint, parse_digits}
use wrtg.Prelude.Int.{pos}
use wrtg.Mtproto.Handshake.{valid_dc}
use wrtg.DcLearn.Persist.{parse_line-persisted_line}
use wrtg.DcLearn.{load, lookup, parse_line, persisted_line, is_ipv4, is_octet}
use wrtg.DcLearn.Precedence.{last_of, or_else, lines_of, load_lem}

abbrev address : Bytes
address = bytes "149.154.167.35"

abbrev learned_text : Option Bytes
learned_text = some (bytes "149.154.167.36 2")

abbrev manual_text : Option Bytes
manual_text = some (bytes "149.154.167.36 4 media # moved")

abbrev new_address : Bytes
new_address = bytes "149.154.167.36"

load_lem_example :
    lookup (load ((new_address, (pos 1, false)) ∷ []) learned_text manual_text) new_address
    ≡ or_else
        (last_of (lines_of manual_text) new_address)
        (or_else (last_of (lines_of learned_text) new_address) none)
load_lem_example =
    load_lem ((new_address, (pos 1, false)) ∷ []) learned_text manual_text new_address

parse_line-persisted_line_example :
    parse_line (persisted_line (bytes "203.0.113.7") (pos 203, true))
    ≡ some (bytes "203.0.113.7", (pos 203, true))
unfolding is_ipv4 is_octet split_at parse_uint parse_digits valid_dc
parse_line-persisted_line_example =
    parse_line-persisted_line (bytes "203.0.113.7") (pos 203) true refl refl
