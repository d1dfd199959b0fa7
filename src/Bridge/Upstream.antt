-- ===== src/Bridge/Upstream.antt =====
-- bridge.rs, `bridge_ws`: the task that carries the client's bytes to the WebSocket.
-- The list is what the reads of the client's socket return until it ends; the result is what the
-- task puts on the send channel, in order. A send that fails ends the task and is not modelled.
use mathlib.Core.Path.{ap₂}
use mathlib.Core.List.{append-nil, append_assoc}
use wrtg.Prelude.{
  ℕ, ◌≡◌, ◌∙◌, refl, sym, ap, arith, List, [], ◌∷◌, ◌++◌, Option, none, some, length, length-append,
  concat, All, take, drop, take-append-drop, length-take, append_cancel,
}
use wrtg.Prelude.Bytes.{Bytes}
use wrtg.Cipher.{Cipher, apply-append, length-apply}
use wrtg.Splitter.{MsgSplitter, start, flush}
use wrtg.Splitter
use wrtg.Splitter.Segmentation.{run}
use wrtg.Splitter.Packets.{Packet, cut, run_packets}
use wrtg.Mtproto.Crypto.{CryptoUp, client_to_telegram}
use wrtg.Mtproto.Crypto.Transparency.{send, receive, relay_up, relay_up-send, apply_twice}

module _ (C : Cipher) where
  open C use {Stream, apply_keystream}

  abbrev flush_all : Option (MsgSplitter C) → List Bytes
  flush_all none = []
  flush_all (some sp) = (flush C sp).1

  unfoldable pub up_task : CryptoUp C → Option (MsgSplitter C) → List Bytes → List Bytes
  up_task up splitter [] = flush_all splitter
  up_task up splitter (buf ∷ reads) =
      let (up', chunk) = client_to_telegram C up buf in
      elim splitter [
        | none ↦ chunk ∷ up_task up' none reads
        | some sp ↦
            let (sp', parts) = Splitter.split C sp chunk in parts ++ up_task up' (some sp') reads
      ]

  -- The splitter sees the re-encrypted chunks, and nothing else of the task.
  up_task-run :
      (up : CryptoUp C) (sp : MsgSplitter C) (reads : List Bytes)
      → up_task up (some sp) reads
        ≡ (run C sp (relay_up C up reads)).1 ++ (flush C (run C sp (relay_up C up reads)).0).1
  unfolding up_task run relay_up
  up_task-run up sp [] = refl
  up_task-run up sp (buf ∷ reads) =
      let (up', chunk) = client_to_telegram C up buf in
      let (sp', parts) = Splitter.split C sp chunk in
      ap (◌++◌ parts) (up_task-run up' sp' reads)
      ∙ sym (append_assoc parts (run C sp' (relay_up C up' reads)).1 _)

  -- What is enciphered in pieces is enciphered as a whole.
  concat-send :
      (s : Stream) (texts : List Bytes)
      → concat (send C s texts) ≡ (apply_keystream s (concat texts)).0
  unfolding send
  concat-send s [] = nothing (apply_keystream s []).0 (length-apply C s [])
    where
      nothing : (xs : Bytes) → length xs ≡ 0 → [] ≡ xs
      nothing [] h = refl
      nothing (x ∷ xs) h = absurd (omega arith)
  concat-send s (text ∷ texts) =
      ap (◌++◌ (apply_keystream s text).0) (concat-send (apply_keystream s text).1 texts)
      ∙ sym (ap (λ t. t.0) (apply-append C s text (concat texts)))

  -- Frames cut where the packets end decipher to the packets.
  receive-cut :
      (s : Stream) (ps : List Bytes) (c : Bytes)
      → (apply_keystream s c).0 ≡ concat ps
      → receive C s (cut ps c) ≡ ps
  unfolding receive cut
  receive-cut s [] c e = refl
  receive-cut s (p ∷ ps) c e =
      ap₂ ◌∷◌ parts.0 (receive-cut (apply_keystream s front).1 ps back parts.1)
    where
      front : Bytes
      front = take (length p) c

      back : Bytes
      back = drop (length p) c

      whole :
          (apply_keystream s front).0 ++ (apply_keystream (apply_keystream s front).1 back).0
          ≡ p ++ concat ps
      whole =
          sym (ap (λ t. t.0) (apply-append C s front back))
          ∙ ap (λ t. (apply_keystream s t).0) (take-append-drop (length p) c)
          ∙ e

      front_len : length (apply_keystream s front).0 ≡ length p
      front_len = omega (
        arith,
        length-apply C s front,
        length-take (length p) c,
        ap length e,
        length-apply C s c,
        length-append p (concat ps),
      )

      parts :
          ((apply_keystream s front).0 ≡ p)
          × ((apply_keystream (apply_keystream s front).1 back).0 ≡ concat ps)
      parts = append_cancel (apply_keystream s front).0 p front_len whole

  flush_nothing : (sp : MsgSplitter C) → sp.cipher_buf ≡ [] → (flush C sp).1 ≡ []
  unfolding flush
  flush_nothing sp e = rw e

  -- Where the client's stream is a sequence of packets of one of the three framings, each of at most 16 MiB
  -- and four bytes with its header, every frame that the task
  -- puts on the WebSocket deciphers, at Telegram's end, to exactly one of the packets, in order and
  -- none missing, whatever pieces the client's bytes arrive in. `client` and `telegram` are the
  -- positions of the two streams when the task starts; the splitter starts at the latter.
  pub up_task_packets :
      (client telegram : Stream) (proto : ℕ) (texts ps : List Bytes)
      → All (Packet proto) ps
      → concat texts ≡ concat ps
      → receive C telegram (
          up_task
            (record { clt_dec = client; tg_enc = telegram })
            (some (start C telegram proto))
            (send C client texts))
        ≡ ps
  up_task_packets client telegram proto texts ps h e =
      ap (receive C telegram) frames
      ∙ receive-cut telegram ps (concat (send C telegram texts)) deciphered
    where
      deciphered : (apply_keystream telegram (concat (send C telegram texts))).0 ≡ concat ps
      deciphered =
          ap (λ t. (apply_keystream telegram t).0) (concat-send telegram texts)
          ∙ apply_twice C telegram (concat texts)
          ∙ e

      split_up :
          (chunks : List Bytes)
          → chunks ≡ send C telegram texts
          → (run C (start C telegram proto) chunks).1
              ++ (flush C (run C (start C telegram proto) chunks).0).1
            ≡ cut ps (concat (send C telegram texts))
      split_up chunks q =
          let cuts = run_packets C telegram proto ps (send C telegram texts) h deciphered in
          rw
            (
              q,
              cuts.0,
              flush_nothing (run C (start C telegram proto) (send C telegram texts)).0 cuts.1,
            )
            (append-nil (cut ps (concat (send C telegram texts))))

      frames :
          up_task
            (record { clt_dec = client; tg_enc = telegram })
            (some (start C telegram proto))
            (send C client texts)
          ≡ cut ps (concat (send C telegram texts))
      frames =
          up_task-run _ (start C telegram proto) (send C client texts)
          ∙ split_up _ (relay_up-send C client telegram texts)
