-- ===== src/Bridge/Connection/Kept.antt =====
-- main.rs: what the blind relay is given is what the client has sent.
use wrtg.Prelude.{
  ℕ, ◌≡◌, refl, sym, ap, ◌∙◌, ◌⊎◌, inl, inr, Bool, Option, List, [], ◌++◌, subst, take-length,
  Bool-cases, Option-cases, length, take, arith,
}
use wrtg.Prelude.Int.{ℤ, pos}
use wrtg.Prelude.Eq.{ℤ_eq, ◌=?◌}
use wrtg.Prelude.Bytes.{Bytes}
use wrtg.Prelude.Results.{ok, Result-cases}
use wrtg.Cipher.{Cipher}
use wrtg.Mtproto.Constants.{handshake_len}
use wrtg.Mtproto.Handshake.{HandshakeInfo, parse_direct_handshake, read_tail}
use wrtg.ClientInit.{Read, Init, parsed, passthrough, panics}
use wrtg.ClientInit.Keeps.{brought, Keeps, read_client_init_keeps}
use wrtg.Bridge.State.{Env, Daemon}
use wrtg.Bridge.Direct.{WsBridgeResult, should_skip_ws}
use wrtg.Bridge.Fallback.{CfBridgeResult, try_tcp_fallback}
use wrtg.Bridge.Session.{
  Net, Readings, Outcome, websocket, tcp, blind, no_draw, run_tcp, after_cf, run_cf, after_ws,
  run_rungs, prepare, resolve_dc, handle_handshake,
}
use wrtg.Bridge.Connection.{
  SocketAddr, Fate, dropped, panicked, goes, dispatch, is_self_target, handle_conn,
}

-- A blind relay is given these bytes.
abbrev pub Relays : {W : Type 0} → Bytes → Outcome W → Type 0
Relays initial (blind b) = b ≡ initial
Relays initial (websocket by ws name) = Unit {0}
Relays initial (tcp dst) = Unit {0}
Relays initial no_draw = Unit {0}

module _ {W : Type 0} (env : Env) (net : Net W) (t : Readings) (orig_ip initial : Bytes) (dc : ℤ)
    (is_media : Bool) where
  run_tcp-Relays :
      (s : Daemon W) → Relays initial (run_tcp env net t orig_ip initial dc is_media s).1
  unfolding run_tcp
  run_tcp-Relays s =
      elim (Option-cases
        (try_tcp_fallback env net.tcp_dial t.tcp_asked t.tcp_ended dc s orig_ip is_media
          t.tcp_started).1) [ inl e ↦ rw (run_tcp, e) refl | inr (dst, e) ↦ rw (run_tcp, e) tt ]

  after_cf-Relays :
      (s : Daemon W) (r : CfBridgeResult W)
      → Relays initial (after_cf env net t orig_ip initial dc is_media (s, r)).1
  after_cf-Relays s (CfBridgeResult.bridged by ws name) = tt
  after_cf-Relays s CfBridgeResult.failed = run_tcp-Relays s

  run_cf-Relays : (s : Daemon W) → Relays initial (run_cf env net t orig_ip initial dc is_media s).1
  unfolding run_cf
  run_cf-Relays s = after_cf-Relays _ _

  after_ws-Relays :
      (s : Daemon W) (r : WsBridgeResult W)
      → Relays initial (after_ws env net t orig_ip initial dc is_media (s, r)).1
  after_ws-Relays s (WsBridgeResult.connected by ws name) = tt
  after_ws-Relays s (WsBridgeResult.failed all_blocked timed_out) = run_cf-Relays _

  run_rungs-Relays :
      (s : Daemon W) → Relays initial (run_rungs env net t orig_ip initial dc is_media s).1
  unfolding run_rungs
  run_rungs-Relays s =
      elim (Bool-cases (should_skip_ws s dc is_media orig_ip t.blacklist t.skip).1) [
        | inl e ↦ rw (run_rungs, e) (run_cf-Relays _)
        | inr e ↦ rw (run_rungs, e) (after_ws-Relays _ _)
      ]

module _ (C : Cipher) {W : Type 0} (env : Env) (net : Net W) (t : Readings) where
  handle_handshake-Relays :
      (s : Daemon W) (hs : HandshakeInfo) (extra orig_ip : Bytes) (draws : List Bytes)
      → Relays (hs.handshake ++ extra) (handle_handshake C env net t s hs extra orig_ip draws).1
  unfolding handle_handshake
  handle_handshake-Relays s hs extra orig_ip draws =
      let found = resolve_dc s hs orig_ip in
      elim (Bool-cases (found.1.0 =? pos 0)) [
        | inl e ↦ rw (handle_handshake, e) refl
        | inr e ↦ elim (Option-cases (prepare C env net t hs found.1.0 found.1.1 draws)) [
          | inl p ↦ rw (handle_handshake, e, p) tt
          | inr (r, p) ↦ elim (Result-cases r) [
            | inl (x, q) ↦ rw (handle_handshake, e, p, q) refl
            | inr (ctx, q) ↦ rw (handle_handshake, e, p, q) (run_rungs-Relays _ _ _ _ _ _ _ _)
          ]
        ]
      ]

  parsed_handshake :
      (h : Bytes) (info : HandshakeInfo) → parse_direct_handshake C h ≡ ok info → info.handshake ≡ h
  unfolding parse_direct_handshake read_tail
  parsed_handshake h info e = ground arith

  -- `held` is what has been read of the client.
  abbrev pub FromClient : Bytes → Fate W → Type 0
  FromClient held dropped = Unit {0}
  FromClient held panicked = ⊥
  FromClient held (goes (blind b)) =
      (b ≡ held)
      ⊎ ((junk : Bytes) × (info : HandshakeInfo) × ((held ≡ junk ++ b)
            × (parse_direct_handshake C (take handshake_len b) ≡ ok info)))
  FromClient held (goes (websocket by ws name)) = Unit {0}
  FromClient held (goes (tcp dst)) = Unit {0}
  FromClient held (goes no_draw) = Unit {0}

  abbrev pub Served : List Read → Daemon W × (Fate W × List Read) → Type 0
  Served reads (s, (fate, left)) =
      (made : List Read) × ((reads ≡ made ++ left) × FromClient (brought made) fate)

  -- From the session's point of view to the client's.
  found_handshake :
      (held junk h prefix : Bytes) (info : HandshakeInfo) (outcome : Outcome W)
      → held ≡ junk ++ (h ++ prefix)
      → length h ≡ handshake_len
      → parse_direct_handshake C h ≡ ok info
      → Relays (h ++ prefix) outcome
      → FromClient held (goes outcome)
  found_handshake held junk h prefix info (blind b) split len p r = inr (
    junk,
    info,
    (
      split ∙ ap (◌++◌ junk) (sym r),
      ap (λ x. parse_direct_handshake C (take handshake_len x)) r
          ∙ ap (λ n. parse_direct_handshake C (take n (h ++ prefix))) (sym len)
          ∙ ap (parse_direct_handshake C) (take-length h prefix)
          ∙ p,
    ),
  )
  found_handshake held junk h prefix info (websocket by ws name) split len p r = tt
  found_handshake held junk h prefix info (tcp dst) split len p r = tt
  found_handshake held junk h prefix info no_draw split len p r = tt

  dispatch-FromClient :
      (s : Daemon W) (orig_ip : Bytes) (draws : List Bytes) (held : Bytes) (init : Init)
      → Keeps C held init
      → FromClient held (dispatch C env net t s orig_ip draws init).1
  dispatch-FromClient s orig_ip draws held (parsed info prefix) (junk, h, (split, (len, p))) =
      found_handshake held junk h prefix info _ split len p (
        subst
          (λ x. Relays (x ++ prefix) (handle_handshake C env net t s info prefix orig_ip draws).1)
          (parsed_handshake h info p) (handle_handshake-Relays s info prefix orig_ip draws))
  dispatch-FromClient s orig_ip draws held (passthrough raw reason) k = inl k
  dispatch-FromClient s orig_ip draws held panics k = absurd k

  -- However the client's bytes arrive and whatever the network does, classifying a connection does not panic,
  -- and where it ends in the blind relay, the relay is given either all that has been read of the client, or
  -- all of it from the handshake that was found on, which is valid. What has been read is what the
  -- reads have brought that are not left to the relay.
  pub handle_conn_kept :
      (s : Daemon W) (local_addr : Option SocketAddr) (orig_ip : Bytes) (orig_port : ℕ)
      (reads : List Read) (draws : List Bytes)
      → Served reads (handle_conn C env net t s local_addr orig_ip orig_port reads draws)
  unfolding handle_conn
  handle_conn_kept s local_addr orig_ip orig_port reads draws =
      elim (Bool-cases (is_self_target local_addr orig_ip orig_port)) [
        | inl e ↦ rw (handle_conn, e) ([], (refl, tt))
        | inr e ↦
            let (made, (split, k)) = read_client_init_keeps C reads in
            rw (handle_conn, e)
              (made, (split, dispatch-FromClient s orig_ip draws (brought made) _ k))
      ]
