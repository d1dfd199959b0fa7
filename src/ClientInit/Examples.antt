-- ===== src/ClientInit/Examples.antt =====
-- handshake.rs: a request over HTTP whose headers come in two pieces.
use wrtg.Prelude.{List, [], ◌∷◌}
use wrtg.Prelude.Bytes.{bytes}
use wrtg.Cipher.Sample.{sample}
use wrtg.ClientInit.{Read, got, ended, read_client_init}
use wrtg.ClientInit.Keeps.{Accounts, read_client_init_keeps}

abbrev request : List Read
request =
    got (bytes "POST /api HTTP/1.1") ∷ got (13 ∷ 10 ∷ 13 ∷ 10 ∷ []) ∷ got (bytes "x") ∷ ended ∷ []

read_client_init_keeps_example : Accounts sample [] request (read_client_init sample request)
read_client_init_keeps_example = read_client_init_keeps sample request
