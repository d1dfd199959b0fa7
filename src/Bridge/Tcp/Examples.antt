-- ===== src/Bridge/Tcp/Examples.antt =====
-- bridge.rs, `bridge_tcp`: two directions in turn, and a client that leaves first.
use wrtg.Prelude.{◌≡◌, refl, true, [], ◌∷◌, List, replicate}
use wrtg.Prelude.Bytes.{Bytes}
use wrtg.Prelude.Results.{ok}
use wrtg.Cipher.{xor_from}
use wrtg.Cipher.Sample.{sample}
use wrtg.Mtproto.Handshake.{key_of, iv_of}
use wrtg.Mtproto.Crypto.{CryptoCtx, build_direct, reversed_key, reversed_iv, reversed_key_iv}
use wrtg.Mtproto.Crypto.Transparency.{send, receive}
use wrtg.Bridge.Tcp.{Event, from_client, from_telegram, client_ended, bridge_tcp, started}
use wrtg.Bridge.Tcp.Transparent.{bridge_tcp_transparent}

abbrev handshake : Bytes
handshake = replicate 64 7

abbrev relay_init : Bytes
relay_init = replicate 64 2

abbrev events : List Event
events =
    from_telegram (22 ∷ []) true
    ∷ from_client (254 ∷ 4 ∷ []) true
    ∷ client_ended
    ∷ from_telegram (28 ∷ 38 ∷ []) true
    ∷ []

bridge_tcp_transparent_example :
    (ctx : CryptoCtx sample) × (build_direct sample handshake relay_init ≡ ok ctx)
    × (receive sample (18, 64) (bridge_tcp sample (started sample ctx) events).to_telegram
        ≡ (1 ∷ 2 ∷ []) ∷ [])
    × (receive sample (63, 0) (bridge_tcp sample (started sample ctx) events).to_client
        ≡ (4 ∷ []) ∷ (5 ∷ 6 ∷ []) ∷ [])
unfolding key_of iv_of reversed_key reversed_iv reversed_key_iv send xor_from
bridge_tcp_transparent_example =
    bridge_tcp_transparent sample handshake relay_init (63, 0) (63, 0) (18, 0) (18, 0) refl refl
      refl refl refl refl events ((1 ∷ 2 ∷ []) ∷ []) ((4 ∷ []) ∷ (5 ∷ 6 ∷ []) ∷ []) refl refl
