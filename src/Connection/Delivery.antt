-- ===== src/Connection/Delivery.antt =====
-- What `Write` delivers, on every list of replies and on one that makes progress.
use cs507_unix_programming.Prelude.{
  ℕ, ◌+◌, ◌-◌, ◌≤◌, ◌<◌, min, ◌∷◌, [], ◌++◌, List, Bytes, ltb, length, take, drop, All, arith, ◌≡◌,
  refl, take-append-take, length-append, ltb→lt, length-drop, length-take, false, Bool-cases, inl,
  inr, ap, ◌∙◌,
}
use cs507_unix_programming.Connection.Io.{
  Reply, fail, moved, finished, Written, written, chunk_then, write,
}

-- A reply that moves something.
abbrev pub IsProgress : Reply → Type 0
IsProgress fail = ⊥
IsProgress (moved k) = 0 < k

-- What is sent is the beginning of the message, and all of it once `Write` finishes.
pub record IsPrefixSent (mesg : Bytes) (sendlen : ℕ) (w : Written) : Type 0 where
  pub in_order : w.sent ≡ take (length w.sent) mesg
  pub within : length w.sent ≤ sendlen
  pub complete : w.status ≡ finished → length w.sent ≡ sendlen

-- The first `r` bytes, and then a beginning of the rest.
pub take-chunk :
    (r : ℕ) (mesg b : Bytes)
    → r ≤ length mesg
    → b ≡ take (length b) (drop r mesg)
    → take r mesg ++ b ≡ take (length (take r mesg ++ b)) mesg
take-chunk r mesg b h e =
    ap (◌++◌ (take r mesg)) e
    ∙ take-append-take r (length b) mesg
    ∙ ap (λ n. take n mesg) (omega (arith, length-append (take r mesg) b, length-take r mesg))

IsPrefixSent-one :
    (r n : ℕ) (mesg : Bytes) (p : List Reply)
    → r ≤ n
    → n ≤ length mesg
    → ltb 0 (n - r) ≡ false
    → IsPrefixSent mesg n (written finished (take r mesg) p)
IsPrefixSent-one r n mesg p le h e = record {
  in_order = ap (λ k. take k mesg) (omega (arith, length-take r mesg));
  within = omega (arith, length-take r mesg);
  complete = λ _. ground (arith, length-take r mesg);
}

IsPrefixSent-chunk :
    (r n : ℕ) (mesg : Bytes) (w : Written)
    → r ≤ n
    → n ≤ length mesg
    → IsPrefixSent (drop r mesg) (n - r) w
    → IsPrefixSent mesg n (chunk_then (take r mesg) w)
IsPrefixSent-chunk r n mesg w le h v = record {
  in_order = take-chunk r mesg w.sent (omega arith) v.in_order;
  within = omega (arith, length-append (take r mesg) w.sent, length-take r mesg, v.within);
  complete =
      λ e. omega (arith, length-append (take r mesg) w.sent, length-take r mesg, v.complete e);
}

-- Whatever the replies of write(2), for a length within the message: what Write sends is a
-- beginning of the message of at most that length, and of exactly that length if Write
-- finishes.
pub write-IsPrefixSent :
    (p : List Reply) (mesg : Bytes) (sendlen : ℕ)
    → sendlen ≤ length mesg
    → IsPrefixSent mesg sendlen (write p mesg sendlen)
unfolding write
write-IsPrefixSent [] mesg sendlen h = record {
  in_order = refl;
  within = omega arith;
  complete = λ e. cc;
}
write-IsPrefixSent (fail ∷ p) mesg sendlen h = record {
  in_order = refl;
  within = omega arith;
  complete = λ e. cc;
}
write-IsPrefixSent (moved k ∷ p) mesg sendlen h =
    elim (Bool-cases (ltb 0 (sendlen - min k sendlen))) [
      | inl more ↦ rw more (
          IsPrefixSent-chunk (min k sendlen) sendlen mesg _ (omega arith) h (
            write-IsPrefixSent p (drop (min k sendlen) mesg) (sendlen - min k sendlen)
              (omega (arith, length-drop (min k sendlen) mesg))))
      | inr last ↦ rw last (IsPrefixSent-one (min k sendlen) sendlen mesg p (omega arith) h last)
    ]

-- With enough replies that make progress `Write` finishes, and leaves the others for later calls.
pub record IsWritten (p : List Reply) (b : Bytes) (w : Written) : Type 0 where
  pub status : w.status ≡ finished
  pub sent : w.sent ≡ b
  pub progress : All IsProgress w.plan
  pub spent : length p ≤ length w.plan + length b

IsWritten-one :
    (r n k : ℕ) (mesg : Bytes) (p : List Reply)
    → All IsProgress p
    → 0 < n
    → r ≤ n
    → n ≤ length mesg
    → ltb 0 (n - r) ≡ false
    → IsWritten (moved k ∷ p) (take n mesg) (written finished (take r mesg) p)
IsWritten-one r n k mesg p a pos le h e = record {
  status = refl;
  sent = ap (λ j. take j mesg) (ground arith);
  progress = a;
  spent = omega (arith, length-take n mesg);
}

IsWritten-chunk :
    (r n k : ℕ) (mesg : Bytes) (p : List Reply) (w : Written)
    → 0 < r
    → r ≤ n
    → n ≤ length mesg
    → IsWritten p (take (n - r) (drop r mesg)) w
    → IsWritten (moved k ∷ p) (take n mesg) (chunk_then (take r mesg) w)
IsWritten-chunk r n k mesg p w pos le h v = record {
  status = v.status;
  sent =
      ap (◌++◌ (take r mesg)) v.sent
      ∙ take-append-take r (n - r) mesg
      ∙ ap (λ j. take j mesg) (omega arith);
  progress = v.progress;
  spent =
      omega
        (arith, v.spent, length-take n mesg, length-take (n - r) (drop r mesg), length-drop r mesg);
}

-- For a positive length within the message, with at least as many replies, each of which moves
-- something: Write finishes with all bytes sent, takes at most one reply for each byte, and
-- leaves the other replies.
pub write-IsWritten :
    (p : List Reply) (mesg : Bytes) (sendlen : ℕ)
    → All IsProgress p
    → 0 < sendlen
    → sendlen ≤ length mesg
    → sendlen ≤ length p
    → IsWritten p (take sendlen mesg) (write p mesg sendlen)
unfolding write
write-IsWritten [] mesg sendlen a pos h l = absurd (omega arith)
write-IsWritten (fail ∷ p) mesg sendlen a pos h l = absurd (a.0)
write-IsWritten (moved k ∷ p) mesg sendlen a pos h l =
    elim (Bool-cases (ltb 0 (sendlen - min k sendlen))) [
      | inl more ↦ rw more (
          IsWritten-chunk (min k sendlen) sendlen k mesg p _ (omega (arith, a.0)) (omega arith) h (
            write-IsWritten p (drop (min k sendlen) mesg) (sendlen - min k sendlen) a.1
              (omega (arith, ltb→lt 0 (sendlen - min k sendlen) more))
              (omega (arith, length-drop (min k sendlen) mesg)) (omega (arith, a.0))))
      | inr last ↦
          rw last (IsWritten-one (min k sendlen) sendlen k mesg p a.1 pos (omega arith) h last)
    ]
