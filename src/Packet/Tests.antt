-- ===== src/Packet/Tests.antt =====
-- The theorems on packet.c at concrete inputs.
use cs507_unix_programming.Prelude.{◌∷◌, [], true}
use cs507_unix_programming.Packet.{Host, Datagram, block}

abbrev open_host : Host
open_host = record { has_socket = true; binds = λ _. true }

abbrev one_block : Datagram
one_block = block (b'a' ∷ b'a' ∷ [])
