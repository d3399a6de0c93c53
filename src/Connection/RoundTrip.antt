-- ===== src/Connection/RoundTrip.antt =====
-- The client shows exactly the messages that the server was given.
use cs507_unix_programming.Prelude.{
  ℕ, zero, suc, ◌+◌, ◌≤◌, ◌<◌, ◌∷◌, [], ◌++◌, List, Bytes, length, arith, ◌≡◌, true, refl, map, ap,
  length-append, All, ◌∙◌, append_assoc, append-nil, none, take-length,
}
use cs507_unix_programming.Connection.Io.{
  Reply, Heap, Buffer, buffer, receive, Written, write, finished, chunk_then,
}
use cs507_unix_programming.Connection.Platform.{Machine, sizeof_size_t}
use cs507_unix_programming.Connection.Server.{
  network_size, send_size, send_message, send_messages, and_write,
}
use cs507_unix_programming.Connection.Client.{conversation, closed, line_then, receive_messages}
use cs507_unix_programming.Connection.Delivery.{IsProgress, IsWritten, write-IsWritten}
use cs507_unix_programming.Connection.Reception.{IsReceived}
use cs507_unix_programming.Connection.Buffering.{HasSize}
use cs507_unix_programming.Connection.Rounds.{
  IsSendable, line_of, frame, stream, last_round, receive_size, length-frame, Shown-cons,
}

module _ (m : Machine) where
  length-stream-ge : (ss : List Bytes) → length ss ≤ length (stream m ss)
  length-stream-ge [] = omega arith
  length-stream-ge (s ∷ ss) =
      omega (arith, length-append (frame m s) (stream m ss), length-frame m s, length-stream-ge ss)

  -- The client's half: the wire holds the messages, and `rest` is not read.
  abbrev pub Shown : Heap → List Bytes → ℕ → List Reply → Bytes → Buffer → Type 0
  Shown h ss fuel p rest b =
      receive_messages m h fuel p (stream m ss ++ rest) b ≡ conversation closed (map line_of ss)

  Shown-nil :
      (h : Heap) (fuel : ℕ) (p : List Reply) (rest : Bytes) (b : Buffer)
      → All IsProgress p
      → sizeof_size_t ≤ length p
      → Shown h [] (suc fuel) p rest b
  Shown-nil h fuel p rest b a l =
      last_round m h fuel p (m.object 0 ++ rest) b v.status
        (rw (v.got, m.value-object 0 (omega arith)) m.ntohl_zero)
    where
      v : IsReceived p (m.object 0) rest (receive p (m.object 0 ++ rest) sizeof_size_t)
      v = receive_size m p 0 rest a l

  Shown-everything :
      (h : Heap)
      → ((n : ℕ) → h.grants n ≡ true)
      → (ss : List Bytes) (fuel : ℕ) (p : List Reply) (rest : Bytes) (b : Buffer)
      → HasSize b.block b.buflen
      → All IsSendable ss
      → All IsProgress p
      → length ss < fuel
      → length (stream m ss) ≤ length p
      → Shown h ss fuel p rest b
  Shown-everything h g ss zero p rest b size ok a lt l = elim lt [ ]
  Shown-everything h g [] (suc fuel) p rest b size ok a lt l =
      Shown-nil h fuel p rest b a (omega (arith, m.length-object 0))
  Shown-everything h g (s ∷ ss) (suc fuel) p rest b size ok a lt l =
      let next =
        Shown-cons m h fuel p s (stream m ss ++ rest) b g size ok.0 a
          (omega (arith, length-append (frame m s) (stream m ss), length-frame m s))
          ((frame m s ++ stream m ss) ++ rest) (framed s (stream m ss) rest) in
      let facts = next.2 in
      facts.0
      ∙ ap (line_then (line_of s)) (
          Shown-everything h g ss fuel next.0 rest next.1 facts.3 ok.1 facts.1 (omega arith)
            (omega (arith, facts.2, length-append (frame m s) (stream m ss), length-frame m s)))
    where
      framed :
          (t u v : Bytes)
          → (frame m t ++ u) ++ v
            ≡ m.object (network_size m (length t + 1)) ++ ((t ++ 0 ∷ []) ++ (u ++ v))
      framed t u v = simp append_assoc

  -- The server's half: with enough replies that make progress, the wire holds the messages.
  sends_size :
      (p : List Reply) (n : ℕ)
      → All IsProgress p
      → sizeof_size_t ≤ length p
      → IsWritten p (m.object n) (send_size m p n)
  sends_size p n a l =
      rw (take-length sizeof_size_t (m.object n) (omega (arith, m.length-object n))) at (
        write-IsWritten p (m.object n) sizeof_size_t a (omega arith)
          (omega (arith, m.length-object n)) l)

  sends_string :
      (p : List Reply) (s : Bytes)
      → All IsProgress p
      → length s + 1 ≤ length p
      → IsWritten p (s ++ 0 ∷ []) (write p (s ++ 0 ∷ []) (length s + 1))
  sends_string p s a l =
      rw (take-length (length s + 1) (s ++ 0 ∷ []) (omega (arith, length-append s (0 ∷ [])))) at (
        write-IsWritten p (s ++ 0 ∷ []) (length s + 1) a (omega arith)
          (omega (arith, length-append s (0 ∷ []))) l)

  goes_on :
      (w : Written) (k : List Reply → Written)
      → w.status ≡ finished
      → and_write w k ≡ chunk_then w.sent (k w.plan)
  goes_on w k e = ground arith

  IsWritten-and_write :
      (p : List Reply) (a b : Bytes) (w : Written) (k : List Reply → Written)
      → IsWritten p a w
      → IsWritten w.plan b (k w.plan)
      → IsWritten p (a ++ b) (and_write w k)
  IsWritten-and_write p a b w k v u = rw (goes_on w k v.status) (record {
    status = u.status;
    sent = ap (λ t. t ++ (k w.plan).sent) v.sent ∙ ap (◌++◌ a) u.sent;
    progress = u.progress;
    spent = omega (arith, v.spent, u.spent, length-append a b);
  })

  sends_message :
      (p : List Reply) (s : Bytes)
      → All IsProgress p
      → sizeof_size_t + (length s + 1) ≤ length p
      → IsWritten p (frame m s) (send_message m p s)
  sends_message p s a l =
      IsWritten-and_write p (m.object (network_size m (length s + 1))) (s ++ 0 ∷ []) w
        (λ q. write q (s ++ 0 ∷ []) (length s + 1)) v
        (sends_string w.plan s v.progress
          (omega (arith, v.spent, m.length-object (network_size m (length s + 1)))))
    where
      w : Written
      w = send_size m p (network_size m (length s + 1))

      v : IsWritten p (m.object (network_size m (length s + 1))) w
      v = sends_size p (network_size m (length s + 1)) a (omega arith)

  -- With enough replies that make progress, the server puts every message on the wire.
  pub send_messages-IsWritten :
      (ss : List Bytes) (p : List Reply)
      → All IsProgress p
      → length (stream m ss) ≤ length p
      → IsWritten p (stream m ss) (send_messages m p ss)
  unfolding send_messages
  send_messages-IsWritten [] p a l = sends_size p 0 a (omega (arith, m.length-object 0))
  send_messages-IsWritten (s ∷ ss) p a l =
      IsWritten-and_write p (frame m s) (stream m ss) w (λ q. send_messages m q ss) v
        (send_messages-IsWritten ss w.plan v.progress
          (omega (arith, v.spent, length-append (frame m s) (stream m ss))))
    where
      w : Written
      w = send_message m p s

      v : IsWritten p (frame m s) w
      v =
          sends_message p s a
            (omega (arith, length-append (frame m s) (stream m ss), length-frame m s))

  -- If the allocator grants every block, every message is free of NUL and, with its NUL,
  -- shorter than 2 ^ 32 bytes, and both sides get at least as many replies as the wire has
  -- bytes, each of which moves something, then the server finishes sending and the client,
  -- reading what it sent, shows one line for each message, with its length and text, in order,
  -- and closes.
  pub client-send_messages :
      (h : Heap) (ss : List Bytes) (p q : List Reply)
      → ((n : ℕ) → h.grants n ≡ true)
      → All IsSendable ss
      → All IsProgress p
      → All IsProgress q
      → length (stream m ss) ≤ length p
      → length (stream m ss) ≤ length q
      → ((send_messages m p ss).status ≡ finished)
        × (receive_messages m h (suc (length q)) q (send_messages m p ss).sent (buffer none 0)
            ≡ conversation closed (map line_of ss))
  client-send_messages h ss p q g ok ap' aq lp lq = (
    v.status,
    rw v.sent (
        rw append-nil at (
          Shown-everything h g ss (suc (length q)) q [] (buffer none 0) refl ok aq
            (omega (arith, lq, length-stream-ge ss)) lq)),
  )
    where
      v : IsWritten p (stream m ss) (send_messages m p ss)
      v = send_messages-IsWritten ss p ap' lp
