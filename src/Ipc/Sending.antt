-- ===== src/Ipc/Sending.antt =====
-- Which message msgop.c sends, and what the receiver shows of it.
use native.Mathlib.Nat.{suc-add}
use cs507_unix_programming.Prelude.{
  ℕ, zero, suc, ◌+◌, ◌-◌, ◌≤◌, ◌<◌, [], ◌∷◌, ◌++◌, true, false, Option, none, some, Bytes, ◌≡◌,
  refl, ap, arith, if◌then◌else◌, Bool-cases, inl, inr, ltb, leb, set, take, replicate, length,
  length-append, append_assoc, lt→ltb, ltb→lt,
}
use cs507_unix_programming.Ipc.Message.{
  msg_buf_len, Flags, msgsnd, store, send_flags, message, send,
}

set-append : (xs ys : Bytes) (y c : ℕ) → set (xs ++ y ∷ ys) (length xs) c ≡ xs ++ c ∷ ys
set-append [] ys y c = refl
set-append (x ∷ xs) ys y c = ap (◌∷◌ x) (set-append xs ys y c)

length-snoc : (xs : Bytes) (c : ℕ) → length (xs ++ c ∷ []) ≡ length xs + 1
length-snoc xs c = length-append xs (c ∷ [])

store-fits :
    (text pre : Bytes) (k j : ℕ)
    → length pre + k ≡ msg_buf_len
    → length text + j ≡ k
    → store text (pre ++ replicate k 0) (length pre) ≡ some (pre ++ (text ++ replicate j 0))
unfolding store
store-fits [] pre k j e h = let q : k ≡ j = omega (arith, h) in rw q
store-fits (c ∷ text) pre zero j e h = absurd (omega (arith, h))
store-fits (c ∷ text) pre (suc k) j e h =
    let room : ltb (length pre) msg_buf_len ≡ true = lt→ltb _ _ (omega (arith, e)) in
    rw (room, set-append pre (replicate k 0) 0 c)
      (store_next text pre k j c (omega (arith, h)) (
        store-fits text (pre ++ c ∷ []) k j (omega (arith, length-snoc pre c, e))
          (omega (arith, h))))
  where
    store_next :
        (text pre : Bytes) (k j c : ℕ)
        → length text + j ≡ k
        → store text ((pre ++ c ∷ []) ++ replicate k 0) (length (pre ++ c ∷ []))
          ≡ some ((pre ++ c ∷ []) ++ (text ++ replicate j 0))
        → store text (pre ++ c ∷ replicate k 0) (length pre + 1)
          ≡ some (pre ++ (c ∷ (text ++ replicate j 0)))
    store_next text pre k j c h e =
        rw
          (
            append_assoc pre (c ∷ []) (replicate k 0),
            append_assoc pre (c ∷ []) (text ++ replicate j 0),
            length-snoc pre c,
          )
          at e

take_message :
    (text : Bytes) (j : ℕ) → take (length text + 1) (text ++ replicate (suc j) 0) ≡ text ++ 0 ∷ []
take_message [] j = refl
take_message (c ∷ text) j = rw suc-add (ap (◌∷◌ c) (take_message text j))

send-fits :
    (stale : Flags) (msqid msgtyp flag : ℕ) (text : Bytes)
    → length text < msg_buf_len
    → send stale msqid msgtyp text flag
      ≡ some (msgsnd msqid msgtyp (text ++ 0 ∷ []) (send_flags flag stale))
unfolding send
send-fits stale msqid msgtyp flag text h =
    let room : leb (length text + 1) msg_buf_len ≡ true = ground (arith, h) in
    let left : length text + suc (msg_buf_len - length text - 1) ≡ msg_buf_len = omega (arith, h) in
    rw (
      store-fits text [] msg_buf_len _ (omega arith) left,
      room,
      take_message text (msg_buf_len - length text - 1),
    )

message-undefined :
    (msqid msgtyp n : ℕ) (flags : Flags) (o : Option Bytes)
    → msg_buf_len ≤ n
    → message msqid msgtyp n flags o ≡ none
message-undefined msqid msgtyp n flags none h = refl
message-undefined msqid msgtyp n flags (some mtext) h =
    let over : leb (n + 1) msg_buf_len ≡ false = ground (arith, h) in rw over

send-undefined :
    (stale : Flags) (msqid msgtyp flag : ℕ) (text : Bytes)
    → msg_buf_len ≤ length text
    → send stale msqid msgtyp text flag ≡ none
unfolding send
send-undefined stale msqid msgtyp flag text h =
    message-undefined msqid msgtyp (length text) (send_flags flag stale) _ h

-- For every text: if it has less than 8192 bytes, msgop.c sends it with one NUL behind it,
-- under the type that was entered and the flags that its code gives, and else it is undefined.
pub send_lem :
    (stale : Flags) (msqid msgtyp flag : ℕ) (text : Bytes)
    → send stale msqid msgtyp text flag ≡ (
        if ltb (length text) msg_buf_len
        then some (msgsnd msqid msgtyp (text ++ 0 ∷ []) (send_flags flag stale))
        else none)
send_lem stale msqid msgtyp flag text = elim (Bool-cases (ltb (length text) msg_buf_len)) [
  | inl e ↦ rw e (send-fits stale msqid msgtyp flag text (ltb→lt _ _ e))
  | inr e ↦ rw e (send-undefined stale msqid msgtyp flag text (ground (arith, e)))
]
