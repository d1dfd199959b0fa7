-- ===== src/Mtproto/Crypto/Transparency.antt =====
-- What the two ends of a session see through the re-encryption of mtproto.rs.
use wrtg.Prelude.{◌≡◌, ◌∙◌, refl, ap, arith, List, [], ◌∷◌, some, length}
use wrtg.Prelude.Bytes.{Bytes}
use wrtg.Prelude.Results.{ok}
use wrtg.Cipher.{Cipher, xor_from, length-xor_from, xor_from_cancel}
use wrtg.Mtproto.Handshake.{key_of, iv_of, zeros}
use wrtg.Mtproto.Crypto.{
  CryptoCtx, CryptoUp, CryptoDown, split, recrypt, build_direct, client_to_telegram,
  telegram_to_client, reversed_key, reversed_iv,
}

module _ (C : Cipher) where
  open C use {
    Stream, new_ctr, new_ctr_ok, apply_keystream, apply_lem, keystream, advance, keystream-advance,
  }

  -- Two ends of one stream: what one enciphers the other deciphers.
  pub apply_twice :
      (s : Stream) (text : Bytes) → (apply_keystream s (apply_keystream s text).0).0 ≡ text
  apply_twice s text =
      ap (λ t. (apply_keystream s t).0) (ap (λ t. t.0) (apply_lem s text))
      ∙ ap (λ t. t.0) (apply_lem s (xor_from (keystream s) 0 text))
      ∙ xor_from_cancel (keystream s) 0 text

  pub same_length :
      (s : Stream) (text other : Bytes)
      → length text ≡ length other
      → (apply_keystream s text).1 ≡ (apply_keystream s other).1
  same_length s text other h = rw (apply_lem s text, apply_lem s other, h) refl

  length-applied : (s : Stream) (text : Bytes) → length (apply_keystream s text).0 ≡ length text
  length-applied s text = rw (apply_lem s text) (length-xor_from (keystream s) 0 text)

  -- A sender's stream and texts.
  unfoldable pub send : Stream → List Bytes → List Bytes
  send s [] = []
  send s (text ∷ texts) = let (c, s') = apply_keystream s text in c ∷ send s' texts

  unfoldable pub relay_up : CryptoUp C → List Bytes → List Bytes
  relay_up up [] = []
  relay_up up (c ∷ cs) = let (up', d) = client_to_telegram C up c in d ∷ relay_up up' cs

  unfoldable pub relay_down : CryptoDown C → List Bytes → List Bytes
  relay_down down [] = []
  relay_down down (c ∷ cs) = let (down', d) = telegram_to_client C down c in d ∷ relay_down down' cs

  recrypt_lem :
      (a b : Stream) (text : Bytes)
      → recrypt C a b (apply_keystream a text).0
        ≡ ((apply_keystream b text).0, (apply_keystream a text).1, (apply_keystream b text).1)
  unfolding recrypt
  recrypt_lem a b text =
      rw (apply_twice a text, same_length a (apply_keystream a text).0 text (length-applied a text))
        refl

  client_to_telegram_lem :
      (a b : Stream) (text : Bytes)
      → client_to_telegram C (record { clt_dec = a; tg_enc = b }) (apply_keystream a text).0 ≡ (
        record { clt_dec = (apply_keystream a text).1; tg_enc = (apply_keystream b text).1 },
        (apply_keystream b text).0,
      )
  unfolding client_to_telegram
  client_to_telegram_lem a b text =
      ap (λ r. (record { clt_dec = r.1; tg_enc = r.2 }, r.0)) (recrypt_lem a b text)

  telegram_to_client_lem :
      (a b : Stream) (text : Bytes)
      → telegram_to_client C (record { tg_dec = a; clt_enc = b }) (apply_keystream a text).0 ≡ (
        record { tg_dec = (apply_keystream a text).1; clt_enc = (apply_keystream b text).1 },
        (apply_keystream b text).0,
      )
  unfolding telegram_to_client
  telegram_to_client_lem a b text =
      ap (λ r. (record { tg_dec = r.1; clt_enc = r.2 }, r.0)) (recrypt_lem a b text)

  pub relay_up-send :
      (a b : Stream) (texts : List Bytes)
      → relay_up (record { clt_dec = a; tg_enc = b }) (send a texts) ≡ send b texts
  unfolding relay_up send
  relay_up-send a b [] = refl
  relay_up-send a b (text ∷ texts) = rw (client_to_telegram_lem a b text) (
      ap (◌∷◌ (apply_keystream b text).0)
        (relay_up-send (apply_keystream a text).1 (apply_keystream b text).1 texts))

  relay_down-send :
      (a b : Stream) (texts : List Bytes)
      → relay_down (record { tg_dec = a; clt_enc = b }) (send a texts) ≡ send b texts
  unfolding relay_down send
  relay_down-send a b [] = refl
  relay_down-send a b (text ∷ texts) = rw (telegram_to_client_lem a b text) (
      ap (◌∷◌ (apply_keystream b text).0)
        (relay_down-send (apply_keystream a text).1 (apply_keystream b text).1 texts))

  -- A receiver on the same stream.
  unfoldable pub receive : Stream → List Bytes → List Bytes
  receive s [] = []
  receive s (c ∷ cs) = let (text, s') = apply_keystream s c in text ∷ receive s' cs

  pub receive-send : (s : Stream) (texts : List Bytes) → receive s (send s texts) ≡ texts
  unfolding receive send
  receive-send s [] = refl
  receive-send s (text ∷ texts) =
      rw (apply_twice s text, same_length s (apply_keystream s text).0 text (length-applied s text))
        (ap (◌∷◌ text) (receive-send (apply_keystream s text).1 texts))

  length-zeros : (packet : Bytes) → length packet ≡ 64 → length (zeros 64) ≡ length packet
  length-zeros packet h = omega (arith, h)

  -- The keys of a session: each end enciphers with the key of its packet from behind that packet on,
  -- and deciphers with the reversed key from the start.
  module _ (handshake relay_init : Bytes) (client client_rev telegram telegram_rev : Stream)
      (client_key : new_ctr (key_of handshake) (iv_of handshake) ≡ some client)
      (client_rev_key : new_ctr (reversed_key handshake) (reversed_iv handshake) ≡ some client_rev)
      (telegram_key : new_ctr (key_of relay_init) (iv_of relay_init) ≡ some telegram)
      (telegram_rev_key : new_ctr (reversed_key relay_init) (reversed_iv relay_init)
        ≡ some telegram_rev)
      (client_len : length handshake ≡ 64) (telegram_len : length relay_init ≡ 64) where
    pub built :
        build_direct C handshake relay_init
        ≡ ok (record {
          clt_dec = (apply_keystream client handshake).1;
          clt_enc = client_rev;
          tg_enc = (apply_keystream telegram relay_init).1;
          tg_dec = telegram_rev;
        })
    unfolding build_direct
    built =
        rw
          (
            client_key,
            client_rev_key,
            telegram_key,
            telegram_rev_key,
            same_length client (zeros 64) handshake (length-zeros handshake client_len),
            same_length telegram (zeros 64) relay_init (length-zeros relay_init telegram_len),
          )
          refl

    -- The two ends of a session talk through the relay as if it were not there. The contexts are
    -- built, and every text that the client enciphers behind its handshake, in pieces of any size,
    -- Telegram deciphers behind the relay packet, and the other way round with the reversed keys.
    pub build_direct_transparent :
        (up down : List Bytes)
        → (ctx : CryptoCtx C) × (build_direct C handshake relay_init ≡ ok ctx)
          × (receive
                (apply_keystream telegram relay_init).1
                (relay_up (split C ctx).0 (send (apply_keystream client handshake).1 up))
              ≡ up)
          × (receive client_rev (relay_down (split C ctx).1 (send telegram_rev down)) ≡ down)
    unfolding split
    build_direct_transparent up down = (
      _,
      built,
      rw (relay_up-send _ _ up) (receive-send _ up),
      rw (relay_down-send telegram_rev client_rev down) (receive-send client_rev down),
    )
