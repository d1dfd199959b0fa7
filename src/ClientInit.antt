-- ===== src/ClientInit.antt =====
-- crates/wrtg/src/handshake.rs: what a new client connection starts with.
-- The socket is the list of what its reads return; a read that runs into its time limit, a budget that
-- is used up and the end of the stream are all `ended`. The texts of the reasons are constructors.
pub mod Keeps
mod Examples
use wrtg.Prelude.{
  ℕ, zero, suc, ◌+◌, ◌-◌, ◌^◌, min, Bool, true, false, not, ◌&&◌, ◌||◌, Option, none, some, List,
  [], ◌∷◌, ◌++◌, ltb, leb, ◌==◌, if◌then◌else◌, length, take, drop, get_or,
}
use wrtg.Prelude.Bytes.{
  Bytes, bytes, is_empty, starts_with, lowercase, trim_start, is_ascii_digit, parse_uint,
}
use wrtg.Prelude.Results.{ok, err}
use wrtg.Cipher.{Cipher}
use wrtg.Mtproto.Constants.{handshake_len}
use wrtg.Mtproto.Handshake.{HandshakeInfo, parse_direct_handshake}

abbrev pub init_read_max : ℕ
init_read_max = 4096

pub data Read : Type 0 where
  got failed : Bytes → Read
  ended : Read

pub data Reason : Type 0 where
  eof unrecognized_handshake tls_passthrough http_passthrough : Reason
  short_read : ℕ → Reason
  io : Bytes → Reason

-- `parsed` carries the prefix of the `PrefixedStream`; `panics` is the `unwrap` on an error.
pub data Init : Type 0 where
  parsed : HandshakeInfo → Bytes → Init
  passthrough : Bytes → Reason → Init
  panics : Init

-- `PrefixedStream`: the bytes handed out before those of the socket.
pub record PrefixedStream : Type 0 where
  pub prefix : Bytes
  pub off : ℕ

unfoldable pub into_parts : PrefixedStream → Bytes
into_parts s = if ltb s.off (length s.prefix) then drop s.off s.prefix else []

-- `poll_read` into a buffer with room for `room` bytes; `none` asks the socket.
unfoldable pub poll_read : PrefixedStream → ℕ → PrefixedStream × Option Bytes
poll_read s room =
    if ltb s.off (length s.prefix)
    then (let n = min room (length s.prefix - s.off) in
        (record s { off = s.off + n }, some (take n (drop s.off s.prefix))))
    else (s, none)

unfoldable pub looks_like_tls_stream : Bytes → Bool
looks_like_tls_stream data_ =
    if ltb (length data_) 2
    then false
    else get_or data_ 1 0 == 0x03 && (get_or data_ 0 0 == 0x16 || get_or data_ 0 0 == 0x17)

unfoldable pub is_http_transport : Bytes → Bool
is_http_transport data_ =
    if ltb (length data_) 4
    then false
    else starts_with data_ (bytes "POST")
      || (starts_with data_ (bytes "GET")
          || (starts_with data_ (bytes "HEAD") || starts_with data_ (bytes "OPTIONS")))

-- `windows(pat.len()).position(|w| w == pat)`
unfoldable pub position : Bytes → Bytes → Option ℕ
position pat [] = none
position pat (c ∷ s) =
    if starts_with (c ∷ s) pat
    then some 0
    else (elim (position pat s) [ none ↦ none | some i ↦ some (suc i) ])

abbrev header_end_mark : Bytes
header_end_mark = 13 ∷ 10 ∷ 13 ∷ 10 ∷ []

unfoldable pub has_complete_http_headers : Bytes → Bool
has_complete_http_headers data_ = elim (position header_end_mark data_) [
  | none ↦ false
  | some i ↦ true
]

abbrev leading_digits : Bytes → Bytes
leading_digits [] = []
leading_digits (c ∷ s) = if is_ascii_digit c then c ∷ leading_digits s else []

-- The search for one pattern, on fuel; the inner `none` is a number out of range. The value is read
-- from the lower-cased text, in which digits are as they were.
unfoldable pub header_value : ℕ → Bytes → Bytes → Option (Option ℕ)
header_value zero pat s = none
header_value (suc fuel) pat s = elim (position pat s) [
  | none ↦ none
  | some i ↦
      let after = drop (i + length pat) s in
      let value = leading_digits (trim_start (λ c. c == b' ' || c == 9) after) in
      if is_empty value then header_value fuel pat after else some (parse_uint (2 ^ 64) value)
]

unfoldable pub parse_http_content_length : Bytes → Option ℕ
parse_http_content_length headers =
    let lower = lowercase headers in
    elim (header_value (suc (length lower)) (13 ∷ 10 ∷ bytes "content-length:") lower) [
      | some value ↦ value
      | none ↦ elim (header_value (suc (length lower)) (10 ∷ bytes "content-length:") lower) [
        | some value ↦ value
        | none ↦ none
      ]
    ]

-- The loop that reads the body of a request; what it comes to, and the reads that are left.
unfoldable pub read_body : ℕ → Bytes → List Read → Init × List Read
read_body total buf [] = (passthrough buf http_passthrough, [])
read_body total buf (read ∷ reads) =
    if ltb (length buf) total && ltb (length buf) init_read_max
    then (elim read [
      | ended ↦ (passthrough buf http_passthrough, reads)
      | failed e ↦ (passthrough buf (io e), reads)
      | got chunk ↦
          if is_empty chunk
          then (passthrough buf http_passthrough, reads)
          else read_body total (buf ++ chunk) reads
    ])
    else (passthrough buf http_passthrough, read ∷ reads)

unfoldable pub read_full_http_request : Bytes → List Read → Init × List Read
read_full_http_request buf reads = elim (position header_end_mark buf) [
  | none ↦ (passthrough buf http_passthrough, reads)
  | some i ↦ elim (parse_http_content_length (take (i + 4) buf)) [
    | none ↦ (passthrough buf http_passthrough, reads)
    | some content_len ↦ read_body (min (i + 4 + content_len) (2 ^ 64 - 1)) buf reads
  ]
]

unfoldable pub give_up : Bytes → Init
give_up buf =
    if is_empty buf
    then passthrough [] eof
    else if ltb (length buf) handshake_len
    then passthrough buf (short_read (length buf))
    else passthrough buf unrecognized_handshake

module _ (C : Cipher) where
  abbrev pub window : Bytes → ℕ → Bytes
  window buf off = take handshake_len (drop off buf)

  abbrev pub parses : Bytes → Bool
  parses h = elim (parse_direct_handshake C h) [ ok info ↦ true | err e ↦ false ]

  -- `(off..off + n).find(..)`
  unfoldable pub find_from : Bytes → ℕ → ℕ → Option ℕ
  find_from buf off zero = none
  find_from buf off (suc n) =
      let rest = find_from buf (suc off) n in if parses (window buf off) then some off else rest

  unfoldable pub find_handshake_offset : Bytes → Option ℕ
  find_handshake_offset buf =
      if ltb (length buf) handshake_len
      then none
      else find_from buf 0 (length buf - handshake_len + 1)

  -- `parse_direct_handshake(..).unwrap()` at the offset that was found.
  unfoldable pub init_at : Bytes → ℕ → Init
  init_at buf off = elim (parse_direct_handshake C (window buf off)) [
    | err e ↦ panics
    | ok info ↦ parsed info (drop (off + handshake_len) buf)
  ]

  -- `buf` is what has been read so far; the reads that are left are those of the session after it.
  unfoldable pub read_init_buffer : Bytes → List Read → Init × List Read
  read_init_buffer buf [] = (give_up buf, [])
  read_init_buffer buf (read ∷ reads) =
      if leb init_read_max (length buf) then (give_up buf, read ∷ reads) else (elim read [
        | ended ↦ (give_up buf, reads)
        | failed e ↦ (passthrough buf (io e), reads)
        | got chunk ↦
            let slice = buf ++ chunk in
            let rest = read_init_buffer slice reads in
            if is_empty chunk
            then (give_up buf, reads)
            else if is_http_transport slice && has_complete_http_headers slice
            then read_full_http_request slice reads
            else if looks_like_tls_stream slice
            then (passthrough slice tls_passthrough, reads)
            else (elim (find_handshake_offset slice) [
              | some off ↦ (init_at slice off, reads)
              | none ↦ rest
            ])
      ])

  unfoldable pub read_client_init : List Read → Init × List Read
  read_client_init reads = read_init_buffer [] reads
