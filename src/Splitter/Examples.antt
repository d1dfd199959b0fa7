-- ===== src/Splitter/Examples.antt =====
-- splitter.rs: one packet of the intermediate framing in two chunks, and what it is read as.
use wrtg.Prelude.{false, ◌≡◌, refl, arith, List, [], ◌∷◌, ◌++◌, concat}
use wrtg.Prelude.Bytes.{Bytes}
use wrtg.Cipher.Sample.{sample}
use wrtg.Cipher.{xor_from}
use wrtg.Mtproto.Constants.{proto_intermediate_int}
use wrtg.Splitter.{start, flush, split_loop, next_packet_len, next_intermediate_len, checked_len}
use wrtg.Splitter
use wrtg.Splitter.Chunks.{IsValid, start-IsValid}
use wrtg.Splitter.Segmentation.{run, run-flush, run-split}
use wrtg.Splitter.Packets.{Packet, intermediate, cut, run_packets, intermediate_header}

abbrev payload : Bytes
payload = 4 ∷ 5 ∷ 6 ∷ []

abbrev frame : Bytes
frame = intermediate_header false 3 ++ payload

sample_frame : Packet proto_intermediate_int (intermediate_header false 3 ++ payload)
sample_frame = intermediate false payload (omega arith) (omega arith)

-- The frame as it arrives: enciphered, and in two chunks.

abbrev secrets : List Bytes
secrets = (20 ∷ 30 ∷ 37 ∷ 44 ∷ 55 ∷ []) ∷ (63 ∷ 71 ∷ []) ∷ []

run_packets_example :
    ((run sample (start sample (23, 0) proto_intermediate_int) secrets).1
      ≡ cut (frame ∷ []) (concat secrets))
    × ((run sample (start sample (23, 0) proto_intermediate_int) secrets).0.cipher_buf ≡ [])
unfolding xor_from cut
run_packets_example =
    run_packets sample (23, 0) proto_intermediate_int (frame ∷ []) secrets (sample_frame, _) refl

run-flush_example :
    (concat (run sample (start sample (23, 0) proto_intermediate_int) secrets).1
        ++ concat
            (flush sample (run sample (start sample (23, 0) proto_intermediate_int) secrets).0).1
      ≡ concat secrets)
    × IsValid sample (run sample (start sample (23, 0) proto_intermediate_int) secrets).0
run-flush_example = run-flush sample (23, 0) proto_intermediate_int secrets

run-split_example :
    run sample (start sample (23, 0) proto_intermediate_int) secrets
    ≡ Splitter.split sample (start sample (23, 0) proto_intermediate_int) (concat secrets)
unfolding run Splitter.split start split_loop next_packet_len next_intermediate_len checked_len
    xor_from
run-split_example =
    run-split sample (start sample (23, 0) proto_intermediate_int) secrets
      (start-IsValid sample (23, 0) proto_intermediate_int) refl refl
