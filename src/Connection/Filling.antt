-- ===== src/Connection/Filling.antt =====
-- `Read` into the client's buffer, with an allocator that grants the block.
use cs507_unix_programming.Prelude.{
  ℕ, ◌≤◌, ◌<◌, ◌++◌, List, Bytes, ltb, length, drop, replicate, arith, ◌≡◌, refl, true, Bool-cases,
  inl, inr, Option, none, some,
}
use cs507_unix_programming.Connection.Io.{
  Reply, Received, receive, Heap, Buffer, buffer, allocate, tracked, ReadRun, read_into, read_new,
  read, extend,
}
use cs507_unix_programming.Connection.Client.{buffer_of, bytes_of}
use cs507_unix_programming.Connection.Buffering.{HasSize, filled, allocate-size}

-- A `Read` into the buffer, with an allocator that grants every block.
pub record Fills (w : Received) (r : ReadRun) : Type 0 where
  pub status : r.status ≡ w.status
  pub incoming : r.incoming ≡ w.incoming
  pub plan : r.plan ≡ w.plan
  pub tail : Bytes
  pub block : bytes_of (buffer_of r.into).block ≡ w.got ++ tail
  pub kept : HasSize (buffer_of r.into).block (buffer_of r.into).buflen

module _ (h : Heap) (p : List Reply) (incoming : Bytes) (n : ℕ) where
  Fills-read_into :
      (block : Bytes) (len : ℕ)
      → length block ≡ len
      → n ≤ len
      → Fills (receive p incoming n) (read_into p incoming n (buffer (some block) len))
  unfolding read_into
  Fills-read_into block len s l = record {
    status = refl;
    incoming = refl;
    plan = refl;
    tail = drop (length (receive p incoming n).got) block;
    block = refl;
    kept = (filled p incoming n (some block) len s l).size;
  }

  Fills-read_new :
      (o : Option Bytes) (block : Bytes)
      → o ≡ some block
      → length block ≡ n
      → Fills (receive p incoming n) (read_new p incoming n o)
  unfolding read_new
  Fills-read_new o block e s = rw e (Fills-read_into block n s (omega arith))

  Fills-kept :
      (o : Option Bytes) (len : ℕ)
      → HasSize o len
      → 0 < n
      → n ≤ len
      → Fills (receive p incoming n) (read_into p incoming n (buffer o len))
  Fills-kept none len s pos l = absurd (omega arith)
  Fills-kept (some block) len s pos l = Fills-read_into block len s l

  allocate-grants :
      (o : Option Bytes) → h.grants n ≡ true → (block : Bytes) × (allocate h o n ≡ some block)
  unfolding allocate
  allocate-grants none g = (replicate n 0, rw g)
  allocate-grants (some old) g = (extend h old 0 n, rw g)

  pub Fills-read :
      (b : Buffer)
      → HasSize b.block b.buflen
      → h.grants n ≡ true
      → 0 < n
      → Fills (receive p incoming n) (read h p incoming n (tracked (some b)))
  unfolding read
  Fills-read b s g pos = elim (Bool-cases (ltb b.buflen n)) [
    | inl more ↦
        let (block, e) = allocate-grants b.block g in
        rw more (Fills-read_new (allocate h b.block n) block e (allocate-size h b.block n e))
    | inr enough ↦ rw enough (Fills-kept b.block b.buflen s pos (ground arith))
  ]
