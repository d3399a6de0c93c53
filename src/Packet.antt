-- ===== src/Packet.antt =====
-- SOLNS/HW10/packet.c: a sender and a receiver of datagrams.
pub mod Transfer
pub mod Tests
use cs507_unix_programming.Prelude.{
  ℕ, zero, suc, ◌+◌, ◌%◌, ◌^◌, List, [], ◌∷◌, ◌++◌, Bool, true, false, Bytes, length, replicate,
  if◌then◌else◌, ◌==◌, leb, ◌&&◌, ◌||◌, str_eq,
}

-- A `u_short`, as htons(3) takes it.
abbrev pub u_short : ℕ → ℕ
u_short n = n % 2 ^ 16

-- What socket(2) and bind(2) answer.
pub record Host : Type 0 where
  pub has_socket : Bool
  pub binds : ℕ → Bool

pub data DgramSocket : Type 0 where
  no_socket : DgramSocket
  no_bind : DgramSocket
  bound : (port : ℕ) → DgramSocket

-- `MakeDgramSocket`
unfoldable pub make_dgram_socket : Host → (port : ℕ) → DgramSocket
make_dgram_socket h port =
    if h.has_socket
    then (if h.binds (u_short port) then bound (u_short port) else no_bind)
    else no_socket

-- A datagram that holds a `size_t`, or a block of bytes.
pub data Datagram : Type 0 where
  size : ℕ → Datagram
  block : Bytes → Datagram

pub data SenderRun : Type 0 where
  exits : SenderRun  -- `error(XTDIO_ERROR, …)` in `MakeDgramSocket`
  undefined : SenderRun  -- reads or writes outside the buffer
  sends : (local to : ℕ) → List Datagram → SenderRun

unfoldable pub packets : (pktqty : ℕ) → Bytes → List Datagram
packets zero b = []
packets (suc n) b = block b ∷ packets n b

-- `calloc` and `memset` run before `pktsiz` is read: the buffer has `stale` bytes, the value that
-- the variable happens to hold. `grants` is the answer of calloc(3), which is not looked at.
send_packets : (stale : ℕ) (grants : Bool) (local pktsiz pktqty : ℕ) → SenderRun
unfolding packets
send_packets stale grants local pktsiz pktqty =
    if (grants || stale == 0) && (leb pktsiz stale || pktqty == 0)
    then sends local (u_short (local + 1))
        (size pktsiz ∷ size pktqty ∷ packets pktqty (replicate pktsiz b'a'))
    else undefined

send_from : (stale : ℕ) (grants : Bool) → DgramSocket → (pktsiz pktqty : ℕ) → SenderRun
unfolding send_packets
send_from stale grants (bound local) pktsiz pktqty = send_packets stale grants local pktsiz pktqty
send_from stale grants _ pktsiz pktqty = exits

-- `Sender`, with the numbers that sscanf(3) reads from `argv[2]`, `argv[3]` and `argv[4]`.
unfoldable pub sender : Host → (stale : ℕ) (grants : Bool) (port pktsiz pktqty : ℕ) → SenderRun
unfolding send_from
sender h stale grants port = send_from stale grants (make_dgram_socket h port)

pub data ReceiverRun : Type 0 where
  exits : ReceiverRun
  no_buffer : ReceiverRun
  waits : (shown : List ℕ) → ReceiverRun  -- inside a recvfrom(2)
  ends : (shown : List ℕ) → ReceiverRun  -- the bytes of each packet, in order

-- recvfrom(2) into a variable: a block overwrites bytes of it, `garble` says to what.
abbrev pub into_size : (garble : Bytes → ℕ) → Datagram → ℕ
into_size garble (size n) = n
into_size garble (block b) = garble b

-- recvfrom(2) into the buffer: the rest of a longer datagram is dropped.
abbrev pub taken : (pktsiz : ℕ) → Datagram → ℕ
taken pktsiz (size n) = if leb 8 pktsiz then 8 else pktsiz
taken pktsiz (block b) = if leb (length b) pktsiz then length b else pktsiz

abbrev pub shown_then : ℕ → ReceiverRun → ReceiverRun
shown_then n (waits l) = waits (n ∷ l)
shown_then n (ends l) = ends (n ∷ l)
shown_then n r = r

unfoldable pub receive_packets : (pktsiz pktqty : ℕ) → List Datagram → ReceiverRun
receive_packets pktsiz zero l = ends []
receive_packets pktsiz (suc n) [] = waits []
receive_packets pktsiz (suc n) (d ∷ l) = shown_then (taken pktsiz d) (receive_packets pktsiz n l)

receive_on : (garble : Bytes → ℕ) (grants : ℕ → Bool) → List Datagram → ReceiverRun
unfolding receive_packets
receive_on garble grants (a ∷ b ∷ l) =
    if grants (into_size garble a)
    then receive_packets (into_size garble a) (into_size garble b) l
    else no_buffer
receive_on garble grants _ = waits []

-- `Receiver`: the port that it binds, and what it does with the datagrams that arrive there.
unfoldable pub receiver_socket : Host → (port : ℕ) → DgramSocket
receiver_socket h port = make_dgram_socket h (port + 1)

receive_from : (garble : Bytes → ℕ) (grants : ℕ → Bool) → DgramSocket → List Datagram → ReceiverRun
unfolding receive_on
receive_from garble grants (bound local) l = receive_on garble grants l
receive_from garble grants _ l = exits

unfoldable pub receiver :
    (garble : Bytes → ℕ) (grants : ℕ → Bool) → Host → (port : ℕ) → List Datagram → ReceiverRun
unfolding receive_from receiver_socket
receiver garble grants h port = receive_from garble grants (receiver_socket h port)

pub data MainRun : Type 0 where
  usage : MainRun
  received : ReceiverRun → MainRun
  sent : SenderRun → MainRun

-- `main`; the programs that it may run are given by the numbers that they read.
unfoldable pub main :
    (scan : Bytes → ℕ) → (ℕ → ReceiverRun) → (ℕ → ℕ → ℕ → SenderRun) → (argv : List Bytes) → MainRun
main scan r s (name ∷ how ∷ port ∷ []) =
    if str_eq how (b'r' ∷ []) then received (r (scan port)) else usage
main scan r s (name ∷ how ∷ port ∷ siz ∷ qty ∷ more) =
    if str_eq how (b's' ∷ []) then sent (s (scan port) (scan siz) (scan qty)) else usage
main scan r s _ = usage
