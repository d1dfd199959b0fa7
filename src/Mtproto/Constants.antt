-- ===== src/Mtproto/Constants.antt =====
-- mtproto.rs: the constants of the obfuscated transport.
use wrtg.Prelude.{ℕ, ◌+◌, ◌*◌, [], ◌∷◌}
use wrtg.Prelude.Bytes.{Bytes}

abbrev pub handshake_len : ℕ
handshake_len = 64

abbrev pub skip_len : ℕ
skip_len = 8

abbrev pub prekey_len : ℕ
prekey_len = 32

abbrev pub iv_len : ℕ
iv_len = 16

abbrev pub proto_tag_pos : ℕ
proto_tag_pos = 56

abbrev pub proto_abridged_int : ℕ
proto_abridged_int = 0xefef_efef

abbrev pub proto_intermediate_int : ℕ
proto_intermediate_int = 0xeeee_eeee

abbrev pub proto_padded_intermediate_int : ℕ
proto_padded_intermediate_int = 0xdddd_dddd

abbrev pub proto_tag_abridged : Bytes
proto_tag_abridged = 0xef ∷ 0xef ∷ 0xef ∷ 0xef ∷ []

abbrev pub proto_tag_intermediate : Bytes
proto_tag_intermediate = 0xee ∷ 0xee ∷ 0xee ∷ 0xee ∷ []

abbrev pub proto_tag_secure : Bytes
proto_tag_secure = 0xdd ∷ 0xdd ∷ 0xdd ∷ 0xdd ∷ []

-- 16 MiB and the longest length header.
abbrev pub max_mtproto_packet : ℕ
max_mtproto_packet = 16 * 1024 * 1024 + 4

-- The cap on a WebSocket payload.
abbrev pub max_ws_payload : ℕ
max_ws_payload = 16 * 1024 * 1024 + 64
