-- ===== src/Mtproto/Crypto.antt =====
-- mtproto.rs: `CryptoCtx`, the two cipher pairs of a session.
pub mod Transparency
use mathlib.Core.List.{reverse}
use wrtg.Prelude.{ℕ, ◌+◌, List, [], ◌∷◌, take, drop, Option}
use wrtg.Prelude.Bytes.{Bytes}
use wrtg.Prelude.Results.{Result, ok, err, ok_or, ◌>>=◌}
use wrtg.Cipher.{Cipher}
use wrtg.Mtproto.Constants.{handshake_len, skip_len, prekey_len, iv_len}
use wrtg.Mtproto.Handshake.{Error, invalid_length, key_of, iv_of, zeros}

-- The key and the vector of the other direction: the same 48 bytes read backwards.
unfoldable pub reversed_key_iv : Bytes → Bytes
reversed_key_iv packet = reverse (take (prekey_len + iv_len) (drop skip_len packet))

unfoldable pub reversed_key : Bytes → Bytes
reversed_key packet = take prekey_len (reversed_key_iv packet)

unfoldable pub reversed_iv : Bytes → Bytes
reversed_iv packet = drop prekey_len (reversed_key_iv packet)

module _ (C : Cipher) where
  open C use {Stream, new_ctr, apply_keystream}

  pub record CryptoCtx : Type 0 where
    pub clt_dec : Stream
    pub clt_enc : Stream
    pub tg_enc : Stream
    pub tg_dec : Stream

  -- Client to Telegram.
  pub record CryptoUp : Type 0 where
    pub clt_dec : Stream
    pub tg_enc : Stream

  -- Telegram to client.
  pub record CryptoDown : Type 0 where
    pub tg_dec : Stream
    pub clt_enc : Stream

  unfoldable pub split : CryptoCtx → CryptoUp × CryptoDown
  split ctx = (
    record { clt_dec = ctx.clt_dec; tg_enc = ctx.tg_enc },
    record { tg_dec = ctx.tg_dec; clt_enc = ctx.clt_enc },
  )

  -- Out of one stream and into another.
  unfoldable pub recrypt : Stream → Stream → Bytes → Bytes × Stream × Stream
  recrypt a b input =
      let (middle, a') = apply_keystream a input in
      let (out, b') = apply_keystream b middle in (out, a', b')

  unfoldable pub build_direct : Bytes → Bytes → Result Error CryptoCtx
  build_direct handshake relay_init = do
    clt_dec ← ok_or (new_ctr (key_of handshake) (iv_of handshake)) invalid_length
    clt_enc ← ok_or (new_ctr (reversed_key handshake) (reversed_iv handshake)) invalid_length
    let (skip, clt_dec') = apply_keystream clt_dec (zeros handshake_len)
    tg_enc ← ok_or (new_ctr (key_of relay_init) (iv_of relay_init)) invalid_length
    tg_dec ← ok_or (new_ctr (reversed_key relay_init) (reversed_iv relay_init)) invalid_length
    let (skip', tg_enc') = apply_keystream tg_enc (zeros handshake_len)
    ok (record { clt_dec = clt_dec'; clt_enc = clt_enc; tg_enc = tg_enc'; tg_dec = tg_dec })

  unfoldable pub client_to_telegram : CryptoUp → Bytes → CryptoUp × Bytes
  unfolding recrypt
  client_to_telegram up input =
      let (out, clt_dec, tg_enc) = recrypt up.clt_dec up.tg_enc input in
      (record { clt_dec = clt_dec; tg_enc = tg_enc }, out)

  unfoldable pub telegram_to_client : CryptoDown → Bytes → CryptoDown × Bytes
  unfolding recrypt
  telegram_to_client down input =
      let (out, tg_dec, clt_enc) = recrypt down.tg_dec down.clt_enc input in
      (record { tg_dec = tg_dec; clt_enc = clt_enc }, out)

  -- `new_relay_decrypt_stream`, which the splitter starts from.
  unfoldable pub new_relay_decrypt_stream : Bytes → Result Error Stream
  new_relay_decrypt_stream relay_init = do
    dec ← ok_or (new_ctr (key_of relay_init) (iv_of relay_init)) invalid_length
    let (skip, dec') = apply_keystream dec (zeros handshake_len)
    ok dec'
