-- ===== src/Mtproto/Examples.antt =====
-- mtproto.rs: a session between a client and a datacenter, and the packet that opens it.
use wrtg.Prelude.{◌≡◌, inl, refl, arith, [], ◌∷◌, some, true, false, any, replicate, length}
use wrtg.Prelude.Bytes.{Bytes, bytes, is_empty}
use wrtg.Prelude.Int.{pos, negsuc}
use wrtg.Prelude.Results.{ok}
use wrtg.Cipher.Sample.{sample}
use wrtg.Mtproto.Constants.{proto_abridged_int}
use wrtg.Mtproto.Handshake.{
  valid_dc, proto_tag_for, is_reserved, parse_direct_handshake, generate_relay_init, key_of, iv_of,
}
use wrtg.Mtproto.RelayInit.{generate_relay_init_lem}
use wrtg.Mtproto.Crypto.{CryptoCtx, build_direct, reversed_key, reversed_iv, reversed_key_iv}
use wrtg.Mtproto.Crypto
use wrtg.Prelude.Distinct.{elem, distinct}
use wrtg.Mtproto.Routing.{default_routes, ws_target_ip, tcp_fallback_targets}
use wrtg.Mtproto.Routing.Targets.{tcp_fallback_targets_lem}
use wrtg.Mtproto.Crypto.Transparency.{send, receive, relay_up, relay_down, build_direct_transparent}

abbrev handshake : Bytes
handshake = replicate 64 7

abbrev relay_init : Bytes
relay_init = replicate 64 2

build_direct_transparent_example :
    (ctx : CryptoCtx sample) × (build_direct sample handshake relay_init ≡ ok ctx)
    × (receive sample
          (18, 64)
          (relay_up sample
            (Crypto.split sample ctx).0
            (send sample (63, 64) ((1 ∷ 2 ∷ []) ∷ (3 ∷ []) ∷ [])))
        ≡ (1 ∷ 2 ∷ []) ∷ (3 ∷ []) ∷ [])
    × (receive sample
          (63, 0)
          (relay_down sample
            (Crypto.split sample ctx).1
            (send sample (18, 0) ((4 ∷ []) ∷ (5 ∷ 6 ∷ []) ∷ [])))
        ≡ (4 ∷ []) ∷ (5 ∷ 6 ∷ []) ∷ [])
unfolding key_of iv_of reversed_key reversed_iv reversed_key_iv
build_direct_transparent_example =
    build_direct_transparent sample handshake relay_init (63, 0) (63, 0) (18, 0) (18, 0) refl refl
      refl refl refl refl ((1 ∷ 2 ∷ []) ∷ (3 ∷ []) ∷ []) ((4 ∷ []) ∷ (5 ∷ 6 ∷ []) ∷ [])

generate_relay_init_lem_example :
    (packet : Bytes) × (generate_relay_init sample
        (proto_tag_for proto_abridged_int)
        (negsuc 3)
        (replicate 64 0xef ∷ replicate 64 7 ∷ [])
      ≡ some (ok packet))
    × (parse_direct_handshake sample packet
        ≡ ok (record {
          dc = pos 4;
          is_media = true;
          dc_in_pkt = true;
          proto_int = proto_abridged_int;
          handshake = packet;
        }))
    × (is_reserved packet ≡ false)
    × (length packet ≡ 64)
unfolding is_reserved
generate_relay_init_lem_example =
    generate_relay_init_lem sample proto_abridged_int (negsuc 3) (replicate 64 7) refl
      (replicate 64 0xef ∷ []) [] 4 true (refl, _) refl (inl refl) (inl (omega arith, omega arith))
      refl

-- A media address of datacenter 2, not blacklisted.
tcp_fallback_targets_lem_example :
    (elem
        (ws_target_ip default_routes (pos 2) (bytes "149.154.162.123"))
        (tcp_fallback_targets default_routes (pos 2) (bytes "149.154.162.123") true false false)
      ≡ true)
    × ((any is_empty
            (tcp_fallback_targets default_routes (pos 2) (bytes "149.154.162.123") true false false)
          ≡ false)
        × (distinct (
              tcp_fallback_targets default_routes
                (pos 2)
                (bytes "149.154.162.123")
                true
                false
                false)
            ≡ true))
unfolding valid_dc
tcp_fallback_targets_lem_example =
    tcp_fallback_targets_lem default_routes 2 (bytes "149.154.162.123") true false false refl
