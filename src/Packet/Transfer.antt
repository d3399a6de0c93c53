-- ===== src/Packet/Transfer.antt =====
-- The receiver listens where the sender sends, and what it shows of the datagrams that arrive.
use cs507_unix_programming.Prelude.{
  ℕ, zero, suc, ◌<◌, ◌≡◌, refl, ap, List, [], ◌∷◌, Bool, true, Bytes, length, arith, ◌∙◌,
}
use cs507_unix_programming.Packet.{
  Host, bound, make_dgram_socket, Datagram, size, undefined, sends, sender, waits, receive_packets,
  receive_on, receive_from, receiver, receiver_socket, taken,
}

-- For every port number: if the sender sends and the receiver binds, the port that the sender
-- names is the one that the receiver is bound to.
pub sender-rendezvous :
    (hs hr : Host) (stale : ℕ) (grants : Bool) (port pktsiz pktqty : ℕ) {local to at : ℕ}
    {l : List Datagram}
    → sender hs stale grants port pktsiz pktqty ≡ sends local to l
    → receiver_socket hr port ≡ bound at
    → to ≡ at
unfolding sender receiver_socket make_dgram_socket
sender-rendezvous hs hr stale grants port pktsiz pktqty e r = ground arith

receiver-bound :
    (garble : Bytes → ℕ) (may : ℕ → Bool) (h : Host) (port : ℕ) {at : ℕ} (a b : ℕ)
    (l : List Datagram)
    → receiver_socket h port ≡ bound at
    → may a ≡ true
    → receiver garble may h port (size a ∷ size b ∷ l) ≡ receive_packets a b l
unfolding receive_from receive_on receiver
receiver-bound garble may h port a b l r g = ground arith

-- A lost packet leaves the receiver waiting.
receive_packets-waits :
    (pktsiz n : ℕ) (l : List Datagram)
    → length l < n
    → (shown : List ℕ) × (receive_packets pktsiz n l ≡ waits shown) × (length shown ≡ length l)
unfolding receive_packets
receive_packets-waits pktsiz zero l h = absurd (omega arith)
receive_packets-waits pktsiz (suc n) [] h = ([], refl, refl)
receive_packets-waits pktsiz (suc n) (d ∷ l) h =
    let (shown, e, k) = receive_packets-waits pktsiz n l (omega arith) in
    (taken pktsiz d ∷ shown, rw e, ap suc k)

-- If the receiver has its socket and its buffer and fewer packets arrive than were announced,
-- it shows those and waits for ever.
pub receiver-waits :
    (garble : Bytes → ℕ) (may : ℕ → Bool) (h : Host) (port : ℕ) {at : ℕ} (pktsiz pktqty : ℕ)
    (l : List Datagram)
    → receiver_socket h port ≡ bound at
    → may pktsiz ≡ true
    → length l < pktqty
    → (shown : List ℕ) × (receiver garble may h port (size pktsiz ∷ size pktqty ∷ l) ≡ waits shown)
      × (length shown ≡ length l)
receiver-waits garble may h port pktsiz pktqty l r g lt =
    let (shown, e, k) = receive_packets-waits pktsiz pktqty l lt in
    (shown, receiver-bound garble may h port pktsiz pktqty l r g ∙ e, k)

-- If the sender has its socket, at least one packet is to be sent, and the packet size is
-- larger than what the variable pktsiz held before it was read, the behaviour is undefined: the
-- buffer is allocated before the size is read.
pub sender-undefined :
    (h : Host) (stale : ℕ) (grants : Bool) (port pktsiz pktqty : ℕ) {at : ℕ}
    → make_dgram_socket h port ≡ bound at
    → stale < pktsiz
    → 0 < pktqty
    → sender h stale grants port pktsiz pktqty ≡ undefined
unfolding sender
sender-undefined h stale grants port pktsiz pktqty e lt some_packet = ground arith
