-- ===== src/Rwlock/Content.antt =====
-- What the file holds after each call.

use cs507_unix_programming.Prelude.{
  ℕ, ◌+◌, ◌-◌, ◌≤◌, ◌∷◌, true, false, some, Bytes, length, ltb, ◌||◌, ◌≡◌, refl, ap, sym, ◌∙◌,
  arith,
}
use cs507_unix_programming.Rwlock.{
  bufsize, Shared, Pc, reader, seeks, reads, has_read, reader_done, writer, marks, writes,
  has_written, writer_done, seek, read, write, call,
}
use cs507_unix_programming.Rwlock.Messages.{
  holds_read, holds_write, between, marked, Knows, Counts, Story,
}
use cs507_unix_programming.Rwlock.Sharing.{write-file, same_outcome, allowed, alone_lem}

module _ (text : ℕ → ℕ → Bytes) (short : (i n : ℕ) → length (text i n) ≤ bufsize) where
  -- What the file holds, where the writer has marked its end.
  write-Story :
      (id a : ℕ) (m : Shared)
      → m.offset ≡ length m.file
      → m.lastwrite ≡ some (length m.file)
      → Story text m (a + 1)
      → Story text (write (text id (m.mesg + 1)) (record m { mesg = m.mesg + 1 })) (a + 0)
  write-Story id a m e k s = record {
    writers = id ∷ s.writers;
    numbered = omega (arith, s.numbered);
    content =
        write-file (text id (m.mesg + 1)) (record m { mesg = m.mesg + 1 }) e
        ∙ rw (s.content, s.numbered) refl;
    last = λ h. k ∙ ap (λ f. some (length f)) s.content;
  }

  mark-Story :
      (a : ℕ) (m : Shared)
      → Story text m (a + 0)
      → Story text (record m { lastwrite = some m.offset }) (a + 1)
  mark-Story a m s = record {
    writers = s.writers;
    numbered = s.numbered;
    content = s.content;
    last = λ h. absurd (omega (arith, h));
  }

  -- The calls that leave the file, its last start and the number alone.
  same-Story :
      (m m' : Shared) (a b : ℕ)
      → m'.file ≡ m.file
      → m'.mesg ≡ m.mesg
      → m'.lastwrite ≡ m.lastwrite
      → a ≡ b
      → Story text m a
      → Story text m' b
  same-Story m m' a b e k l h s = record {
    writers = s.writers;
    numbered = s.numbered ∙ sym k;
    content = e ∙ s.content;
    last = λ z. l ∙ s.last (h ∙ z);
  }

  pub call-Story :
      {m' : Shared} {q : Pc} (p : Pc) (id : ℕ) (m : Shared) (r w b a : ℕ)
      → b ≤ r
      → Counts m (r + holds_read p) (w + holds_write p) (b + between p)
      → Knows m.file m.lastwrite p
      → Story text m (a + marked p)
      → call text id p m ≡ some (m', q)
      → Story text m' (a + marked q)
  call-Story reader id m r w b a l c k s h =
      same_outcome (λ o. Story text o.0 (a + marked o.1)) (allowed m.writing h)
        (same-Story m (record m { readers = m.readers + 1 }) (a + 0) (a + 0) refl refl refl refl s)
  call-Story seeks id m r w b a l c k s h =
      same_outcome (λ o. Story text o.0 (a + marked o.1)) h
        (same-Story m (record m { offset = seek m.lastwrite m.offset }) (a + 0) (a + 0) refl refl
          refl refl s)
  call-Story reads id m r w b a l c k s h =
      same_outcome (λ o. Story text o.0 (a + marked o.1)) h
        (same-Story m (record m { offset = m.offset + length (read m) }) (a + 0) (a + 0) refl refl
          refl refl s)
  call-Story (has_read buf) id m r w b a l c k s h =
      same_outcome (λ o. Story text o.0 (a + marked o.1)) h
        (same-Story m (record m { readers = m.readers - 1 }) (a + 0) (a + 0) refl refl refl refl s)
  call-Story writer id m r w b a l c k s h =
      same_outcome (λ o. Story text o.0 (a + marked o.1)) (allowed (m.writing || ltb 0 m.readers) h)
        (same-Story m (record m { writing = true }) (a + 0) (a + 0) refl refl refl refl s)
  call-Story marks id m r w b a l c k s h =
      same_outcome (λ o. Story text o.0 (a + marked o.1)) h (mark-Story a m s)
  call-Story writes id m r w b a l c k s h =
      let quiet : b + 0 ≡ 0 = omega (arith, (alone_lem m (r + 0) w (b + 0) c).0, l) in
      same_outcome (λ o. Story text o.0 (a + marked o.1)) h
        (write-Story id a m (c.at_end quiet) k s)
  call-Story has_written id m r w b a l c k s h =
      same_outcome (λ o. Story text o.0 (a + marked o.1)) h
        (same-Story m (record m { writing = false }) (a + 0) (a + 0) refl refl refl refl s)
  call-Story reader_done id m r w b a l c k s h = cc
  call-Story writer_done id m r w b a l c k s h = cc
