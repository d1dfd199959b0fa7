-- ===== src/Bridge/Examples.antt =====
-- bridge.rs: two packets that arrive in three pieces.
use wrtg.Prelude.{true, false, ◌≡◌, refl, arith, List, [], ◌∷◌, some, replicate}
use wrtg.Prelude.Bytes.{Bytes}
use wrtg.Cipher.Sample.{sample}
use wrtg.Mtproto.Constants.{proto_abridged_int}
use wrtg.Mtproto.Crypto.Transparency.{send, receive}
use wrtg.Splitter.{start}
use wrtg.Splitter.Packets.{abridged}
use wrtg.Bridge.Upstream.{up_task, up_task_packets}

abbrev first_packet : Bytes
first_packet = 129 ∷ replicate 4 9

abbrev second_packet : Bytes
second_packet = 2 ∷ replicate 8 5

abbrev pieces : List Bytes
pieces = (129 ∷ 9 ∷ 9 ∷ []) ∷ (9 ∷ 9 ∷ 2 ∷ 5 ∷ []) ∷ replicate 7 5 ∷ []

up_task_packets_example :
    receive sample
      (17, 64)
      (up_task sample
        (record { clt_dec = (3, 64); tg_enc = (17, 64) })
        (some (start sample (17, 64) proto_abridged_int))
        (send sample (3, 64) pieces))
    ≡ first_packet ∷ second_packet ∷ []
up_task_packets_example =
    up_task_packets sample (3, 64) (17, 64) proto_abridged_int pieces
      (first_packet ∷ second_packet ∷ [])
      (
        abridged true 1 (replicate 4 9) refl (omega arith) (omega arith),
        (abridged false 2 (replicate 8 5) refl (omega arith) (omega arith), _),
      )
      refl
