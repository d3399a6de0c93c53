-- ===== src/Connection/Buffering.antt =====
-- The block that `Read` fills is as large as `*buflen` says, and large enough.
use cs507_unix_programming.Prelude.{
  ℕ, zero, suc, ◌+◌, ◌≤◌, ◌∷◌, [], List, Bytes, ltb, length, drop, arith, ◌≡◌, refl, ◌≢◌,
  Bool-cases, inl, inr, ap, Option, none, some, length-append, length-drop, length-replicate,
}
use mathlib.Core.Option
use cs507_unix_programming.Connection.Io.{
  read_into, read_new, Reply, failed, receive, Heap, extend, Buffer, buffer, allocate, store_in,
  tracked, ReadRun, read,
}
use cs507_unix_programming.Connection.Reception.{receive-IsSplit}

-- A null pointer goes with length 0.
abbrev pub HasSize : Option Bytes → ℕ → Type 0
HasSize none n = n ≡ 0
HasSize (some block) n = length block ≡ n

length-extend : (h : Heap) (old : Bytes) (i n : ℕ) → length (extend h old i n) ≡ n
unfolding extend
length-extend h old i zero = refl
length-extend h [] i (suc n) = ap suc (length-extend h [] (i + 1) n)
length-extend h (b ∷ old) i (suc n) = ap suc (length-extend h old (i + 1) n)

pub allocate-size :
    (h : Heap) (b : Option Bytes) (n : ℕ) {block : Bytes}
    → allocate h b n ≡ some block
    → length block ≡ n
unfolding allocate
allocate-size h none n e = ground (arith, length-replicate {A = ℕ} n 0)
allocate-size h (some old) n e = ground (arith, length-extend h old 0 n)

length-store_in :
    (got block : Bytes) → length got ≤ length block → length (store_in got block) ≡ length block
length-store_in got block h =
    omega (arith, length-append got (drop (length got) block), length-drop (length got) block)

-- A `Read` that does not end the process keeps the block and its length in step, and has room
-- for what was asked for: it never writes behind the block.
pub record IsRoomy (recvlen : ℕ) (got : Bytes) (b : Buffer) : Type 0 where
  pub size : HasSize b.block b.buflen
  pub room : recvlen ≤ b.buflen
  pub fits : length got ≤ b.buflen

fill_size :
    (got : Bytes) (block : Option Bytes) (n : ℕ)
    → HasSize block n
    → length got ≤ n
    → HasSize (Option.map (store_in got) block) n
fill_size got none n h l = h
fill_size got (some block) n h l = omega (arith, length-store_in got block (omega arith))

abbrev pub Roomy : ℕ → ReadRun → Type 0
Roomy n r = (b : Buffer) × (r.into ≡ tracked (some b)) × IsRoomy n r.got b

module _ (p : List Reply) (incoming : Bytes) (n : ℕ) where
  pub filled :
      (block : Option Bytes) (len : ℕ)
      → HasSize block len
      → n ≤ len
      → IsRoomy n
          (receive p incoming n).got
          (buffer (Option.map (store_in (receive p incoming n).got) block) len)
  filled block len s l = record {
    size = fill_size (receive p incoming n).got block len s (omega (arith, v));
    room = l;
    fits = omega (arith, v);
  }
    where
      v : length (receive p incoming n).got ≤ n
      v = (receive-IsSplit p incoming n).within

pub read_into-IsRoomy :
    (p : List Reply) (incoming : Bytes) (n : ℕ) (b : Buffer)
    → HasSize b.block b.buflen
    → n ≤ b.buflen
    → Roomy n (read_into p incoming n b)
unfolding read_into
read_into-IsRoomy p incoming n b s l = (_, refl, filled p incoming n b.block b.buflen s l)

read_new-IsRoomy :
    (p : List Reply) (incoming : Bytes) (n : ℕ) (o : Option Bytes)
    → ((block : Bytes) → o ≡ some block → length block ≡ n)
    → (read_new p incoming n o).status ≢ failed
    → Roomy n (read_new p incoming n o)
unfolding read_new
read_new-IsRoomy p incoming n none s ok = absurd (ok refl)
read_new-IsRoomy p incoming n (some block) s ok =
    read_into-IsRoomy p incoming n (buffer (some block) n) (s block refl) (omega arith)

-- If the buffer has the length that is recorded for it, a Read into it that does not end the
-- process leaves a buffer that again has its recorded length, which is at least the length
-- asked for and at least the number of bytes received.
pub read-IsRoomy :
    (h : Heap) (p : List Reply) (incoming : Bytes) (recvlen : ℕ) (b : Buffer)
    → HasSize b.block b.buflen
    → (read h p incoming recvlen (tracked (some b))).status ≢ failed
    → Roomy recvlen (read h p incoming recvlen (tracked (some b)))
unfolding read
read-IsRoomy h p incoming n b s = elim (Bool-cases (ltb b.buflen n)) [
  | inl more ↦
      rw more
        (read_new-IsRoomy p incoming n (allocate h b.block n) (λ block. allocate-size h b.block n))
  | inr enough ↦ rw enough (λ _. read_into-IsRoomy p incoming n b s (ground arith))
]
