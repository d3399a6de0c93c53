-- ===== src/Connection/Reception.antt =====
-- What `Read` receives, on every list of replies and on one that makes progress.
use cs507_unix_programming.Prelude.{
  ℕ, ◌+◌, ◌-◌, ◌≤◌, ◌<◌, min, ◌∷◌, [], ◌++◌, List, Bytes, ltb, length, take, drop, All, arith, ◌≡◌,
  ◌==◌, if◌then◌else◌, take-append-drop, append_assoc, refl, take-append-take, take-append,
  drop-append, length-append, drop-drop, ltb→lt, length-drop, length-take, false, Bool-cases, inl,
  inr, ap, ◌∙◌, ◌≢◌,
}
use cs507_unix_programming.Connection.Io.{
  Reply, fail, moved, finished, Received, received, piece_then, receive,
}
use cs507_unix_programming.Connection.Delivery.{IsProgress}

-- The bytes that `Read` hands over and those that are left make up the stream, and a `Read` that
-- finishes has the length that was asked for.
pub record IsSplit (stream : Bytes) (recvlen : ℕ) (r : Received) : Type 0 where
  pub whole : r.got ++ r.incoming ≡ stream
  pub within : length r.got ≤ recvlen
  pub complete : r.status ≡ finished → length r.got ≡ recvlen

IsSplit-one :
    (r n z : ℕ) (stream : Bytes) (p : List Reply)
    → r ≤ n
    → r ≤ length stream
    → ltb 0 (n - r) ≡ false
    → IsSplit stream n (received finished (take r stream) (drop r stream) p z)
IsSplit-one r n z stream p le h e = record {
  whole = take-append-drop r stream;
  within = omega (arith, length-take r stream);
  complete = λ _. ground (arith, length-take r stream);
}

IsSplit-piece :
    (r n z : ℕ) (stream : Bytes) (w : Received)
    → r ≤ n
    → r ≤ length stream
    → IsSplit (drop r stream) (n - r) w
    → IsSplit stream n (piece_then (take r stream) z w)
IsSplit-piece r n z stream w le h v = record {
  whole =
      append_assoc (take r stream) w.got w.incoming
      ∙ ap (◌++◌ (take r stream)) v.whole
      ∙ take-append-drop r stream;
  within = omega (arith, length-append (take r stream) w.got, length-take r stream, v.within);
  complete =
      λ e. omega (arith, length-append (take r stream) w.got, length-take r stream, v.complete e);
}

-- How much one call moves.
abbrev amount : ℕ → ℕ → Bytes → ℕ
amount k n stream = min k (min n (length stream))

pub receive-IsSplit :
    (p : List Reply) (stream : Bytes) (recvlen : ℕ)
    → IsSplit stream recvlen (receive p stream recvlen)
unfolding receive
receive-IsSplit [] stream n = record { whole = refl; within = omega arith; complete = λ e. cc }
receive-IsSplit (fail ∷ p) stream n = record {
  whole = refl;
  within = omega arith;
  complete = λ e. cc;
}
receive-IsSplit (moved k ∷ p) stream n = elim (Bool-cases (ltb 0 (n - amount k n stream))) [
  | inl more ↦ rw more (
      IsSplit-piece (amount k n stream) n _ stream _ (omega arith) (omega arith)
        (receive-IsSplit p (drop (amount k n stream) stream) (n - amount k n stream)))
  | inr last ↦
      rw last (IsSplit-one (amount k n stream) n _ stream p (omega arith) (omega arith) last)
]

-- If the stream ends before the length asked for, Read does not finish, whatever read(2)
-- answers.
pub receive-ne-finished :
    (p : List Reply) (stream : Bytes) (recvlen : ℕ)
    → length stream < recvlen
    → (receive p stream recvlen).status ≢ finished
receive-ne-finished p stream n h e = absurd (
    omega (
      arith,
      v.complete e,
      length-append (receive p stream n).got (receive p stream n).incoming,
      ap length v.whole,
    ))
  where
    v : IsSplit stream n (receive p stream n)
    v = receive-IsSplit p stream n

pub record IsReceived (p : List Reply) (b rest : Bytes) (r : Received) : Type 0 where
  pub status : r.status ≡ finished
  pub got : r.got ≡ b
  pub incoming : r.incoming ≡ rest
  pub progress : All IsProgress r.plan
  pub spent : length p ≤ length r.plan + length b
  pub naps : r.naps ≡ 0

module _ (p : List Reply) (k n : ℕ) (stream : Bytes) (pos : 0 < k) (some_left : 0 < n)
    (h : n ≤ length stream) where
  IsReceived-one :
      All IsProgress p
      → ltb 0 (n - amount k n stream) ≡ false
      → IsReceived (moved k ∷ p) (take n stream) (drop n stream) (
          received finished
            (take (amount k n stream) stream)
            (drop (amount k n stream) stream)
            p
            (if amount k n stream == 0 then 1 else 0))
  IsReceived-one a e = record {
    status = refl;
    got = ap (λ j. take j stream) (ground arith);
    incoming = ap (λ j. drop j stream) (ground arith);
    progress = a;
    spent = omega (arith, length-take n stream);
    naps = ground arith;
  }

  IsReceived-piece :
      (w : Received)
      → IsReceived p
          (take (n - amount k n stream) (drop (amount k n stream) stream))
          (drop (n - amount k n stream) (drop (amount k n stream) stream))
          w
      → IsReceived
          (moved k ∷ p)
          (take n stream)
          (drop n stream)
          (piece_then (take (amount k n stream) stream) (if amount k n stream == 0 then 1 else 0) w)
  IsReceived-piece w v = record {
    status = v.status;
    got =
        ap (◌++◌ (take r stream)) v.got
        ∙ take-append-take r (n - r) stream
        ∙ ap (λ j. take j stream) (omega arith);
    incoming = v.incoming ∙ drop-drop r (n - r) stream ∙ ap (λ j. drop j stream) (omega arith);
    progress = v.progress;
    spent = omega (
      arith,
      v.spent,
      length-take n stream,
      length-take (n - r) (drop r stream),
      length-drop r stream,
    );
    naps = ground (arith, v.naps);
  }
    where
      r : ℕ
      r = amount k n stream

-- For a positive length within the stream, with at least as many replies, each of which moves
-- something: Read finishes with the next bytes of that length, leaves the others on the stream,
-- never sleeps, and takes at most one reply for each byte.
pub receive-IsReceived :
    (p : List Reply) (stream : Bytes) (n : ℕ)
    → All IsProgress p
    → 0 < n
    → n ≤ length stream
    → n ≤ length p
    → IsReceived p (take n stream) (drop n stream) (receive p stream n)
unfolding receive
receive-IsReceived [] stream n a pos h l = absurd (omega arith)
receive-IsReceived (fail ∷ p) stream n a pos h l = absurd (a.0)
receive-IsReceived (moved k ∷ p) stream n a pos h l =
    elim (Bool-cases (ltb 0 (n - amount k n stream))) [
      | inl more ↦ rw more (
          IsReceived-piece p k n stream a.0 pos h _ (
            receive-IsReceived p (drop (amount k n stream) stream) (n - amount k n stream) a.1
              (omega (arith, ltb→lt 0 (n - amount k n stream) more))
              (omega (arith, length-drop (amount k n stream) stream)) (omega (arith, a.0))))
      | inr last ↦ rw last (IsReceived-one p k n stream a.0 pos h a.1 last)
    ]

-- The same where the stream is given as what is read and what follows.
pub receive_next :
    (p : List Reply) (b rest : Bytes)
    → All IsProgress p
    → 0 < length b
    → length b ≤ length p
    → IsReceived p b rest (receive p (b ++ rest) (length b))
receive_next p b rest a pos l =
    rw (take-append b rest, drop-append b rest) at
      (receive-IsReceived p (b ++ rest) (length b) a pos (omega (arith, length-append b rest)) l)
