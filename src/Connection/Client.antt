-- ===== src/Connection/Client.antt =====
-- `Client` and `main` of SOLNS/HW10/connection.c.
use cs507_unix_programming.Prelude.{
  ℕ, zero, suc, ◌+◌, ◌%◌, ◌^◌, List, [], ◌∷◌, Option, none, some, Bool, Bytes, length,
  if◌then◌else◌, ◌==◌, str_eq, c_string,
}
use cs507_unix_programming.Connection.Io.{
  Reply, finished, failed, blocked, Heap, Buffer, buffer, Destination, fixed, tracked, read,
}
use cs507_unix_programming.Connection.Platform.{Machine, sizeof_size_t}
use cs507_unix_programming.Connection.Server.{ServerHost, ServerRun, Build, server}

-- One round of the loop that polls for the server.
pub data Attempt : Type 0 where
  no_socket : Attempt
  refused : Attempt
  connected : Attempt

pub data Connecting : Type 0 where
  opened : (naps : ℕ) → Connecting
  socket_failed : Connecting
  polling : Connecting  -- no more attempts are given: the loop goes on

unfoldable pub poll : List Attempt → (naps : ℕ) → Connecting
poll [] naps = polling
poll (no_socket ∷ l) naps = socket_failed
poll (refused ∷ l) naps = poll l (naps + 1)
poll (connected ∷ l) naps = opened naps

pub data Ending : Type 0 where
  closed : Ending  -- the zero count came, the socket is closed
  died : Ending  -- `Read` ended the process
  waiting : Ending  -- inside a read(2)

-- The lines "rcvd %3lu bytes: %s" of the build with `Q2`; the other build prints none.
pub record Conversation : Type 0 where
  pub ending : Ending
  pub lines : List (ℕ × Bytes)

abbrev pub conversation : Ending → List (ℕ × Bytes) → Conversation
conversation e l = record { ending = e; lines = l }

abbrev pub line_then : ℕ × Bytes → Conversation → Conversation
line_then l c = conversation c.ending (l ∷ c.lines)

abbrev pub buffer_of : Destination → Buffer
buffer_of (tracked (some b)) = b
buffer_of _ = buffer none 0

abbrev pub bytes_of : Option Bytes → Bytes
bytes_of none = []
bytes_of (some block) = block

-- The loop "receive message(s) from server". Each round takes a reply at least, so that fuel
-- beyond their number is never used up.
unfoldable pub receive_messages :
    Machine → Heap → (fuel : ℕ) → List Reply → (incoming : Bytes) → Buffer → Conversation
receive_messages m h zero p incoming b = conversation waiting []
receive_messages m h (suc fuel) p incoming b =
    let count = read h p incoming sizeof_size_t fixed in
    let qtyread = m.ntohl (m.value count.got % 2 ^ 32) in
    let body = read h count.plan count.incoming qtyread (tracked (some b)) in
    let b' = buffer_of body.into in
    let rest =
      line_then (qtyread, c_string (bytes_of b'.block))
        (receive_messages m h fuel body.plan body.incoming b') in
    elim count.status [
      | failed ↦ conversation died []
      | blocked ↦ conversation waiting []
      | finished ↦ if qtyread == 0 then conversation closed [] else elim body.status [
        | failed ↦ conversation died []
        | blocked ↦ conversation waiting []
        | finished ↦ rest
      ]
    ]

pub record ClientHost : Type 0 where
  pub use_localhost : Bool  -- the build's USELOCALHOST
  pub has_name : Bool
  pub resolves : Bool
  pub heap : Heap
  pub attempts : List Attempt
  pub replies : List Reply
  pub incoming : Bytes

pub data ClientRun : Type 0 where
  no_hostname no_hostent no_descriptor : ClientRun
  connecting : ClientRun
  talked : (naps : ℕ) → Conversation → ClientRun

talk : Machine → ClientHost → Connecting → ClientRun
unfolding receive_messages
talk m h polling = connecting
talk m h socket_failed = no_descriptor
talk m h (opened naps) =
    talked naps
      (receive_messages m h.heap (suc (length h.replies)) h.replies h.incoming (buffer none 0))

unfoldable pub client : Machine → ClientHost → ClientRun
unfolding talk poll
client m h =
    let rest = if h.resolves then talk m h (poll h.attempts 0) else no_hostent in
    if h.use_localhost then rest else if h.has_name then rest else no_hostname

-- `main`: what it runs, or the usage error.
pub data MainRun : Type 0 where
  usage : MainRun
  ran_client : (port : ℕ) → ClientRun → MainRun
  ran_server : ServerRun → MainRun

unfoldable pub main :
    Machine
    → Build
    → (scan : Bytes → ℕ) → ClientHost
    → ServerHost
    → List Reply
    → List Bytes
    → MainRun
unfolding client server
main m build scan c s p (name ∷ how ∷ port ∷ []) =
    if str_eq how (b'c' ∷ []) then ran_client (scan port) (client m c) else usage
main m build scan c s p (name ∷ how ∷ port ∷ word ∷ words) =
    if str_eq how (b's' ∷ [])
    then ran_server (server m build scan s p (name ∷ how ∷ port ∷ word ∷ words))
    else usage
main m build scan c s p _ = usage
