-- ===== src/Bridge/Tcp/Transparent.antt =====
-- bridge.rs, `bridge_tcp`: what the two ends of a session over TCP see.
use mathlib.Core.List.{append_assoc, append-nil}
use wrtg.Prelude.{◌≡◌, ◌∙◌, sym, ap, Bool, true, false, some, List, [], ◌∷◌, ◌++◌, length}
use wrtg.Prelude.Bytes.{Bytes}
use wrtg.Prelude.Results.{ok}
use wrtg.Cipher.{Cipher}
use wrtg.Mtproto.Handshake.{key_of, iv_of}
use wrtg.Mtproto.Crypto.{
  CryptoCtx, CryptoUp, CryptoDown, client_to_telegram, telegram_to_client, build_direct,
  reversed_key, reversed_iv,
}
use wrtg.Mtproto.Crypto
use wrtg.Mtproto.Crypto.Transparency.{send, receive, relay_up, relay_down, build_direct_transparent}
use wrtg.Bridge.Tcp.{
  Event, from_client, from_telegram, client_ended, telegram_ended, abandoned, Session, started,
  up_round, down_round, on_event, bridge_tcp,
}

-- What is read and carried on in one direction.
abbrev pub carried_up : Bool → List Event → List Bytes
carried_up false es = []
carried_up true [] = []
carried_up true (from_client buf true ∷ es) = buf ∷ carried_up true es
carried_up true (from_client buf false ∷ es) = []
carried_up true (from_telegram buf written ∷ es) = carried_up true es
carried_up true (client_ended ∷ es) = []
carried_up true (telegram_ended ∷ es) = carried_up true es
carried_up true (abandoned ∷ es) = []

abbrev pub carried_down : Bool → List Event → List Bytes
carried_down false es = []
carried_down true [] = []
carried_down true (from_telegram buf true ∷ es) = buf ∷ carried_down true es
carried_down true (from_telegram buf false ∷ es) = []
carried_down true (from_client buf written ∷ es) = carried_down true es
carried_down true (telegram_ended ∷ es) = []
carried_down true (client_ended ∷ es) = carried_down true es
carried_down true (abandoned ∷ es) = []

module _ (C : Cipher) where
  abbrev session : CryptoUp C → CryptoDown C → Bool → Bool → List Bytes → List Bytes → Session C
  session u d b c t o = record {
    up = u;
    down = d;
    up_runs = b;
    down_runs = c;
    to_telegram = t;
    to_client = o;
  }

  bridge_tcp-up :
      (es : List Event) (u : CryptoUp C) (d : CryptoDown C) (b c : Bool) (t o : List Bytes)
      → (bridge_tcp C (session u d b c t o) es).to_telegram ≡ t ++ relay_up C u (carried_up b es)
  unfolding bridge_tcp on_event up_round down_round relay_up relay_down
  bridge_tcp-up [] u d false x t o = sym (append-nil t)
  bridge_tcp-up [] u d true x t o = sym (append-nil t)
  bridge_tcp-up (from_client buf true ∷ es) u d true x t o =
      bridge_tcp-up es (client_to_telegram C u buf).0 d true x
        (t ++ ((client_to_telegram C u buf).1 ∷ [])) o
      ∙ append_assoc t ((client_to_telegram C u buf).1 ∷ []) _
  bridge_tcp-up (from_client buf false ∷ es) u d true x t o =
      bridge_tcp-up es (client_to_telegram C u buf).0 d false x t o
  bridge_tcp-up (from_client buf written ∷ es) u d false x t o = bridge_tcp-up es u d false x t o
  bridge_tcp-up (from_telegram buf true ∷ es) u d true true t o =
      bridge_tcp-up es u (telegram_to_client C d buf).0 true true t
        (o ++ ((telegram_to_client C d buf).1 ∷ []))
  bridge_tcp-up (from_telegram buf false ∷ es) u d true true t o =
      bridge_tcp-up es u (telegram_to_client C d buf).0 true false t o
  bridge_tcp-up (from_telegram buf written ∷ es) u d true false t o =
      bridge_tcp-up es u d true false t o
  bridge_tcp-up (from_telegram buf true ∷ es) u d false true t o =
      bridge_tcp-up es u (telegram_to_client C d buf).0 false true t
        (o ++ ((telegram_to_client C d buf).1 ∷ []))
  bridge_tcp-up (from_telegram buf false ∷ es) u d false true t o =
      bridge_tcp-up es u (telegram_to_client C d buf).0 false false t o
  bridge_tcp-up (from_telegram buf written ∷ es) u d false false t o =
      bridge_tcp-up es u d false false t o
  bridge_tcp-up (client_ended ∷ es) u d true x t o = bridge_tcp-up es u d false x t o
  bridge_tcp-up (telegram_ended ∷ es) u d true x t o = bridge_tcp-up es u d true false t o
  bridge_tcp-up (abandoned ∷ es) u d true x t o = bridge_tcp-up es u d false false t o
  bridge_tcp-up (client_ended ∷ es) u d false x t o = bridge_tcp-up es u d false x t o
  bridge_tcp-up (telegram_ended ∷ es) u d false x t o = bridge_tcp-up es u d false false t o
  bridge_tcp-up (abandoned ∷ es) u d false x t o = bridge_tcp-up es u d false false t o

  bridge_tcp-down :
      (es : List Event) (u : CryptoUp C) (d : CryptoDown C) (b c : Bool) (t o : List Bytes)
      → (bridge_tcp C (session u d b c t o) es).to_client ≡ o ++ relay_down C d (carried_down c es)
  unfolding bridge_tcp on_event up_round down_round relay_up relay_down
  bridge_tcp-down [] u d x false t o = sym (append-nil o)
  bridge_tcp-down [] u d x true t o = sym (append-nil o)
  bridge_tcp-down (from_telegram buf true ∷ es) u d x true t o =
      bridge_tcp-down es u (telegram_to_client C d buf).0 x true t
        (o ++ ((telegram_to_client C d buf).1 ∷ []))
      ∙ append_assoc o ((telegram_to_client C d buf).1 ∷ []) _
  bridge_tcp-down (from_telegram buf false ∷ es) u d x true t o =
      bridge_tcp-down es u (telegram_to_client C d buf).0 x false t o
  bridge_tcp-down (from_telegram buf written ∷ es) u d x false t o =
      bridge_tcp-down es u d x false t o
  bridge_tcp-down (from_client buf true ∷ es) u d true true t o =
      bridge_tcp-down es (client_to_telegram C u buf).0 d true true
        (t ++ ((client_to_telegram C u buf).1 ∷ [])) o
  bridge_tcp-down (from_client buf false ∷ es) u d true true t o =
      bridge_tcp-down es (client_to_telegram C u buf).0 d false true t o
  bridge_tcp-down (from_client buf written ∷ es) u d false true t o =
      bridge_tcp-down es u d false true t o
  bridge_tcp-down (from_client buf true ∷ es) u d true false t o =
      bridge_tcp-down es (client_to_telegram C u buf).0 d true false
        (t ++ ((client_to_telegram C u buf).1 ∷ [])) o
  bridge_tcp-down (from_client buf false ∷ es) u d true false t o =
      bridge_tcp-down es (client_to_telegram C u buf).0 d false false t o
  bridge_tcp-down (from_client buf written ∷ es) u d false false t o =
      bridge_tcp-down es u d false false t o
  bridge_tcp-down (telegram_ended ∷ es) u d x true t o = bridge_tcp-down es u d x false t o
  bridge_tcp-down (client_ended ∷ es) u d x true t o = bridge_tcp-down es u d false true t o
  bridge_tcp-down (abandoned ∷ es) u d x true t o = bridge_tcp-down es u d false false t o
  bridge_tcp-down (telegram_ended ∷ es) u d x false t o = bridge_tcp-down es u d x false t o
  bridge_tcp-down (client_ended ∷ es) u d x false t o = bridge_tcp-down es u d false false t o
  bridge_tcp-down (abandoned ∷ es) u d x false t o = bridge_tcp-down es u d false false t o

  -- However the two directions of a session over TCP are interleaved, and wherever they end: Telegram deciphers
  -- exactly the texts whose bytes were carried on from the client, and the client those carried on from
  -- Telegram, provided each enciphers its own with the keys of the session.
  pub bridge_tcp_transparent :
      (handshake relay_init : Bytes) (client client_rev telegram telegram_rev : C.Stream)
      → C.new_ctr (key_of handshake) (iv_of handshake) ≡ some client
      → C.new_ctr (reversed_key handshake) (reversed_iv handshake) ≡ some client_rev
      → C.new_ctr (key_of relay_init) (iv_of relay_init) ≡ some telegram
      → C.new_ctr (reversed_key relay_init) (reversed_iv relay_init) ≡ some telegram_rev
      → length handshake ≡ 64
      → length relay_init ≡ 64
      → (es : List Event) (ups downs : List Bytes)
      → carried_up true es ≡ send C (C.apply_keystream client handshake).1 ups
      → carried_down true es ≡ send C telegram_rev downs
      → (ctx : CryptoCtx C) × (build_direct C handshake relay_init ≡ ok ctx)
        × (receive C
              (C.apply_keystream telegram relay_init).1
              (bridge_tcp C (started C ctx) es).to_telegram
            ≡ ups)
        × (receive C client_rev (bridge_tcp C (started C ctx) es).to_client ≡ downs)
  bridge_tcp_transparent handshake relay_init client client_rev telegram telegram_rev k1 k2 k3 k4 l1
        l2 es ups downs hu hd =
      let (ctx, b, u, d) =
        build_direct_transparent C handshake relay_init client client_rev telegram telegram_rev k1
          k2 k3 k4 l1 l2 ups downs in
      let (up, down) = Crypto.split C ctx in
      (
        ctx,
        b,
        ap (receive C (C.apply_keystream telegram relay_init).1)
              (bridge_tcp-up es up down true true [] [] ∙ ap (relay_up C up) hu)
            ∙ u,
        ap (receive C client_rev)
              (bridge_tcp-down es up down true true [] [] ∙ ap (relay_down C down) hd)
            ∙ d,
      )
