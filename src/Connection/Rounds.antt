-- ===== src/Connection/Rounds.antt =====
-- One round of the client's loop, on a wire that holds the server's messages.
use cs507_unix_programming.Prelude.{
  ℕ, suc, ◌+◌, ◌%◌, ◌^◌, ◌≤◌, ◌<◌, ◌∷◌, [], ◌++◌, List, Bytes, length, arith, ◌≡◌, refl, ◌==◌, true,
  false, ap, some, length-append, All, NoNul, c_string, c_string-append, ◌∙◌, append_assoc,
}
use cs507_unix_programming.Connection.Filling.{Fills, Fills-read}
use cs507_unix_programming.Connection.Io.{
  Reply, finished, Received, receive, Heap, Buffer, tracked, ReadRun, read,
}
use cs507_unix_programming.Connection.Platform.{Machine, sizeof_size_t}
use cs507_unix_programming.Connection.Server.{network_size}
use cs507_unix_programming.Connection.Client.{
  conversation, closed, line_then, buffer_of, bytes_of, receive_messages,
}
use cs507_unix_programming.Connection.Delivery.{IsProgress}
use cs507_unix_programming.Connection.Reception.{IsReceived, receive_next}
use cs507_unix_programming.Connection.Buffering.{HasSize}

-- A string as the client can show it: no NUL inside, and a length that a `uint32_t` holds.
abbrev pub IsSendable : Bytes → Type 0
IsSendable s = NoNul s × (length s + 1 < 2 ^ 32)

abbrev pub line_of : Bytes → ℕ × Bytes
line_of s = (length s + 1, s)

module _ (m : Machine) where
  -- What the server puts on the wire.
  abbrev pub frame : Bytes → Bytes
  frame s = m.object (network_size m (length s + 1)) ++ (s ++ 0 ∷ [])

  abbrev pub stream : List Bytes → Bytes
  stream [] = m.object 0
  stream (s ∷ ss) = frame s ++ stream ss

  -- One round of the client's loop.
  round :
      (h : Heap) (fuel : ℕ) (p : List Reply) (incoming : Bytes) (b : Buffer) (n : ℕ) (c : Received)
      (body : ReadRun)
      → receive p incoming sizeof_size_t ≡ c
      → c.status ≡ finished
      → m.ntohl (m.value c.got % 2 ^ 32) ≡ n
      → (n == 0) ≡ false
      → read h c.plan c.incoming n (tracked (some b)) ≡ body
      → body.status ≡ finished
      → receive_messages m h (suc fuel) p incoming b
        ≡ line_then
            (n, c_string (bytes_of (buffer_of body.into).block))
            (receive_messages m h fuel body.plan body.incoming (buffer_of body.into))
  unfolding receive_messages read
  round h fuel p incoming b n c body ec st num nz eb done = ground arith

  pub last_round :
      (h : Heap) (fuel : ℕ) (p : List Reply) (incoming : Bytes) (b : Buffer)
      → (receive p incoming sizeof_size_t).status ≡ finished
      → m.ntohl (m.value (receive p incoming sizeof_size_t).got % 2 ^ 32) ≡ 0
      → receive_messages m h (suc fuel) p incoming b ≡ conversation closed []
  unfolding receive_messages read
  last_round h fuel p incoming b st num = ground arith

  pub length-frame : (s : Bytes) → length (frame s) ≡ sizeof_size_t + (length s + 1)
  length-frame s = omega (
    arith,
    length-append (m.object (network_size m (length s + 1))) (s ++ 0 ∷ []),
    length-append s (0 ∷ []),
    m.length-object (network_size m (length s + 1)),
  )

  -- The count survives the two conversions.
  count_arrives :
      (n : ℕ) → n < 2 ^ 32 → m.ntohl (m.value (m.object (network_size m n)) % 2 ^ 32) ≡ n
  count_arrives n h =
      rw (e, network_size)
        (rw (m.value-object (m.htonl n) (omega (arith, small))) (rw (e') (m.ntohl-htonl n h)))
    where
      small : m.htonl n < 2 ^ 32
      small = m.htonl_range n h

      e : n % 2 ^ 32 ≡ n
      e = omega arith

      e' : m.htonl n % 2 ^ 32 ≡ m.htonl n
      e' = omega (arith, small)

  pub receive_size :
      (p : List Reply) (n : ℕ) (rest : Bytes)
      → All IsProgress p
      → sizeof_size_t ≤ length p
      → IsReceived p (m.object n) rest (receive p (m.object n ++ rest) sizeof_size_t)
  receive_size p n rest a l = rw (m.length-object n) at (
      receive_next p (m.object n) rest a (omega (arith, m.length-object n))
        (omega (arith, m.length-object n)))

  receive_string :
      (p : List Reply) (s rest : Bytes)
      → All IsProgress p
      → length s + 1 ≤ length p
      → IsReceived p (s ++ 0 ∷ []) rest (receive p ((s ++ 0 ∷ []) ++ rest) (length s + 1))
  receive_string p s rest a l = rw (length-append s (0 ∷ [])) at (
      receive_next p (s ++ 0 ∷ []) rest a (omega (arith, length-append s (0 ∷ [])))
        (omega (arith, length-append s (0 ∷ []))))

  -- `c` is the state of the connection after the count, `d` after the string.
  module _ (h : Heap) (fuel : ℕ) (p : List Reply) (s next : Bytes) (b : Buffer)
      (grants : (n : ℕ) → h.grants n ≡ true) (size : HasSize b.block b.buflen)
      (sendable : IsSendable s) (progress : All IsProgress p)
      (enough : sizeof_size_t + (length s + 1) ≤ length p) where
    shown_string : (bytes tail : Bytes) → bytes ≡ (s ++ 0 ∷ []) ++ tail → c_string bytes ≡ s
    shown_string bytes tail e =
        ap c_string (e ∙ append_assoc s (0 ∷ []) tail) ∙ c_string-append s tail sendable.0

    abbrev pub Step : Bytes → List Reply → Buffer → Type 0
    Step incoming p' b' =
        (receive_messages m h (suc fuel) p incoming b
          ≡ line_then (line_of s) (receive_messages m h fuel p' next b'))
        × All IsProgress p'
        × (length p ≤ length p' + (sizeof_size_t + (length s + 1)))
        × HasSize b'.block b'.buflen

    Step-body :
        (incoming : Bytes) (c d : Received) (body : ReadRun)
        → receive p incoming sizeof_size_t ≡ c
        → IsReceived p (m.object (network_size m (length s + 1))) ((s ++ 0 ∷ []) ++ next) c
        → IsReceived c.plan (s ++ 0 ∷ []) next d
        → read h c.plan c.incoming (length s + 1) (tracked (some b)) ≡ body
        → Fills d body
        → Step incoming body.plan (buffer_of body.into)
    Step-body incoming c d body ec v w eb f = (
      round h fuel p incoming b (length s + 1) c body ec v.status
            (rw v.got (count_arrives (length s + 1) sendable.1)) (ground arith) eb
            (f.status ∙ w.status)
          ∙ ap
              (λ t.
                line_then (length s + 1, t)
                  (receive_messages m h fuel body.plan body.incoming (buffer_of body.into)))
              (shown_string _ f.tail (f.block ∙ ap (λ t. t ++ f.tail) w.got))
          ∙ ap
              (λ i.
                line_then (line_of s) (receive_messages m h fuel body.plan i (buffer_of body.into)))
              (f.incoming ∙ w.incoming),
      rw f.plan w.progress,
      omega (
        arith,
        ap length f.plan,
        v.spent,
        w.spent,
        length-append s (0 ∷ []),
        m.length-object (network_size m (length s + 1)),
      ),
      f.kept,
    )

    pub Shown-cons :
        (incoming : Bytes)
        → incoming ≡ m.object (network_size m (length s + 1)) ++ ((s ++ 0 ∷ []) ++ next)
        → (p' : List Reply) × (b' : Buffer) × Step incoming p' b'
    Shown-cons incoming e = (
      _,
      _,
      Step-body incoming c d body refl v w refl (
          Fills-read h c.plan c.incoming (length s + 1) b size (grants (length s + 1))
            (omega arith)),
    )
      where
        c : Received
        c = receive p incoming sizeof_size_t

        v : IsReceived p (m.object (network_size m (length s + 1))) ((s ++ 0 ∷ []) ++ next) c
        v = rw e (
            receive_size p (network_size m (length s + 1)) ((s ++ 0 ∷ []) ++ next) progress
              (omega arith))

        d : Received
        d = receive c.plan c.incoming (length s + 1)

        w : IsReceived c.plan (s ++ 0 ∷ []) next d
        w = rw v.incoming (
            receive_string c.plan s next v.progress
              (omega (arith, v.spent, m.length-object (network_size m (length s + 1)))))

        body : ReadRun
        body = read h c.plan c.incoming (length s + 1) (tracked (some b))
