-- ===== src/Rwlock/Sharing.antt =====
-- The threads keep the invariant, in any order.
use mathlib.Core.Path.{subst}
use cs507_unix_programming.Prelude.{
  ℕ, zero, suc, ◌+◌, ◌-◌, ◌≤◌, min, List, [], ◌∷◌, ◌++◌, Bool, true, false, Option, none, some,
  Bytes, length, take, drop, length-take, length-drop, length-append, take-length, append-nil, ltb,
  ◌||◌, if◌then◌else◌, All, ◌≡◌, refl, ap, ◌∙◌, ◌⊎◌, inl, inr, arith, Bool-cases,
}
use cs507_unix_programming.Rwlock.{
  bufsize, Shared, Pc, reader, seeks, reads, has_read, reader_done, writer, marks, writes,
  has_written, writer_done, read, write, call,
}
use cs507_unix_programming.Rwlock.Messages.{
  total, holds_read, holds_write, between, start_of, Knows, Counts,
}

pub drop-all : (xs : Bytes) (n : ℕ) → length xs ≤ n → drop n xs ≡ []
drop-all [] zero h = refl
drop-all (x ∷ xs) zero h = absurd (omega (arith, h))
drop-all [] (suc n) h = refl
drop-all (x ∷ xs) (suc n) h = drop-all xs n (omega arith)

-- A write at the end of the file appends.
pub write-file :
    (text : Bytes) (m : Shared) → m.offset ≡ length m.file → (write text m).file ≡ m.file ++ text
write-file text m h = rw (
  take-length m.offset m.file (omega (arith, h)),
  drop-all m.file (m.offset + length text) (omega (arith, h)),
  append-nil text,
)

length-read : (m : Shared) → length (read m) ≡ min bufsize (length m.file - m.offset)
length-read m =
    omega (arith, length-take bufsize (drop m.offset m.file), length-drop m.offset m.file)

-- What holds of the outcome of a call holds of what the call is said to give.
pub same_outcome : {a b : Shared × Pc} (P : Shared × Pc → Type 0) → some a ≡ some b → P a → P b
same_outcome P e h = subst P (some-inj e) h
  where
    some-inj : {a b : Shared × Pc} → some a ≡ some b → a ≡ b
    some-inj e = cc

-- The count of the messages is not in the invariant of the lock.
sent-Counts :
    (m : Shared) (r w b : ℕ) → Counts m r w b → Counts (record m { mesg = m.mesg + 1 }) r w b
sent-Counts m r w b c = record {
  readers = c.readers;
  writer_count = c.writer_count;
  alone = c.alone;
  at_end = c.at_end;
  offset = c.offset;
  starts = c.starts;
  fits = c.fits;
}

-- A writer with the lock is alone.
pub alone_lem : (m : Shared) (r w b : ℕ) → Counts m r (w + 1) b → (r ≡ 0) × (w ≡ 0)
alone_lem m r w b c = elim (Bool-cases m.writing) [
  | inl e ↦ ground (arith, c, e)
  | inr e ↦ ground (arith, c, e)
]

-- Where a call waited for the lock, and did not block, it had it.
pub allowed :
    {a b : Shared × Pc} (t : Bool) → (if t then none else some a) ≡ some b → some a ≡ some b
allowed true h = cc
allowed false h = h

-- What is read from the start of the last message, or from the end of the file.
read-Knows :
    (m : Shared) (r w b : ℕ)
    → Counts m r w b
    → (read m ≡ []) ⊎ (read m ≡ drop (start_of m.lastwrite) m.file)
read-Knows m r w b c = elim c.offset [
  | inl e ↦ inl (ap (take bufsize) (drop-all m.file m.offset (omega (arith, e))))
  | inr e ↦ inr (
      ap (λ n. take bufsize (drop n m.file)) e
      ∙ take-length bufsize (drop (start_of m.lastwrite) m.file)
          (omega (arith, length-drop (start_of m.lastwrite) m.file, c.fits)))
]

-- With nobody holding the lock, nobody claims to know anything.
pub idle-Knows :
    (file : Bytes) (last : Option ℕ) (ps : List Pc)
    → total holds_read ps ≡ 0
    → total holds_write ps ≡ 0
    → All (Knows file last) ps
idle-Knows file last [] h k = tt
idle-Knows file last (reader ∷ ps) h k =
    (tt, idle-Knows file last ps (omega (arith, h)) (omega (arith, k)))
idle-Knows file last (seeks ∷ ps) h k = absurd (omega (arith, h))
idle-Knows file last (reads ∷ ps) h k = absurd (omega (arith, h))
idle-Knows file last (has_read buf ∷ ps) h k = absurd (omega (arith, h))
idle-Knows file last (reader_done ∷ ps) h k =
    (tt, idle-Knows file last ps (omega (arith, h)) (omega (arith, k)))
idle-Knows file last (writer ∷ ps) h k =
    (tt, idle-Knows file last ps (omega (arith, h)) (omega (arith, k)))
idle-Knows file last (marks ∷ ps) h k = absurd (omega (arith, k))
idle-Knows file last (writes ∷ ps) h k = absurd (omega (arith, k))
idle-Knows file last (has_written ∷ ps) h k = absurd (omega (arith, k))
idle-Knows file last (writer_done ∷ ps) h k =
    (tt, idle-Knows file last ps (omega (arith, h)) (omega (arith, k)))

module _ (text : ℕ → ℕ → Bytes) (short : (i n : ℕ) → length (text i n) ≤ bufsize) where
  write-Counts :
      (t : Bytes) (m : Shared) (r w b : ℕ)
      → b ≤ r
      → length t ≤ bufsize
      → Counts m (r + 0) (w + 1) (b + 0)
      → m.lastwrite ≡ some (length m.file)
      → Counts (write t m) (r + 0) (w + 1) (b + 0)
  write-Counts t m r w b l s c k =
      let quiet : b ≡ 0 = ground (arith, c, l) in
      let at_end : m.offset ≡ length m.file = ground (arith, c, quiet) in
      let whole = ap length (write-file t m at_end) ∙ length-append m.file t in
      ground (arith, whole, at_end, s, k)

  pub call-Counts :
      {m' : Shared} {q : Pc} (p : Pc) (id : ℕ) (m : Shared) (r w b : ℕ)
      → b ≤ r
      → Counts m (r + holds_read p) (w + holds_write p) (b + between p)
      → Knows m.file m.lastwrite p
      → call text id p m ≡ some (m', q)
      → Counts m' (r + holds_read q) (w + holds_write q) (b + between q)
  call-Counts reader id m r w b l c k h = ground arith
  call-Counts seeks id m r w b l c k h = ground arith
  call-Counts reads id m r w b l c k h = ground (arith, length-read m)
  call-Counts (has_read buf) id m r w b l c k h = ground arith
  call-Counts writer id m r w b l c k h = ground arith
  call-Counts marks id m r w b l c k h = ground arith
  call-Counts writes id m r w b l c k h =
      same_outcome (λ o. Counts o.0 (r + holds_read o.1) (w + holds_write o.1) (b + between o.1)) h
        (write-Counts (text id (m.mesg + 1)) (record m { mesg = m.mesg + 1 }) r w b l
          (short id (m.mesg + 1)) (sent-Counts m (r + 0) (w + 1) (b + 0) c) k)
  call-Counts has_written id m r w b l c k h = ground arith
  call-Counts reader_done id m r w b l c k h = cc
  call-Counts writer_done id m r w b l c k h = cc

  -- The thread that makes the call knows of the file what it should.
  pub call-Knows :
      {m' : Shared} {q : Pc} (p : Pc) (id : ℕ) (m : Shared) (r w b : ℕ)
      → b ≤ r
      → Counts m (r + holds_read p) (w + holds_write p) (b + between p)
      → call text id p m ≡ some (m', q)
      → Knows m'.file m'.lastwrite q
  call-Knows reader id m r w b l c h =
      same_outcome (λ o. Knows o.0.file o.0.lastwrite o.1) (allowed m.writing h) tt
  call-Knows seeks id m r w b l c h = same_outcome (λ o. Knows o.0.file o.0.lastwrite o.1) h tt
  call-Knows reads id m r w b l c h =
      same_outcome (λ o. Knows o.0.file o.0.lastwrite o.1) h
        (read-Knows m (r + 1) (w + 0) (b + 1) c)
  call-Knows (has_read buf) id m r w b l c h =
      same_outcome (λ o. Knows o.0.file o.0.lastwrite o.1) h tt
  call-Knows writer id m r w b l c h =
      same_outcome (λ o. Knows o.0.file o.0.lastwrite o.1)
        (allowed (m.writing || ltb 0 m.readers) h) tt
  call-Knows marks id m r w b l c h =
      let quiet : b + 0 ≡ 0 = omega (arith, (alone_lem m (r + 0) w (b + 0) c).0, l) in
      same_outcome (λ o. Knows o.0.file o.0.lastwrite o.1) h (ap some (c.at_end quiet))
  call-Knows writes id m r w b l c h = same_outcome (λ o. Knows o.0.file o.0.lastwrite o.1) h tt
  call-Knows has_written id m r w b l c h =
      same_outcome (λ o. Knows o.0.file o.0.lastwrite o.1) h tt
  call-Knows reader_done id m r w b l c h = cc
  call-Knows writer_done id m r w b l c h = cc

  -- What the others know stays true.
  pub call-others :
      {m' : Shared} {q : Pc} (p : Pc) (id : ℕ) (m : Shared) (ps : List Pc) (b : ℕ)
      → Counts m (total holds_read ps + holds_read p) (total holds_write ps + holds_write p) b
      → All (Knows m.file m.lastwrite) ps
      → call text id p m ≡ some (m', q)
      → All (Knows m'.file m'.lastwrite) ps
  call-others reader id m ps b c k h =
      same_outcome (λ o. All (Knows o.0.file o.0.lastwrite) ps) (allowed m.writing h) k
  call-others seeks id m ps b c k h = same_outcome (λ o. All (Knows o.0.file o.0.lastwrite) ps) h k
  call-others reads id m ps b c k h = same_outcome (λ o. All (Knows o.0.file o.0.lastwrite) ps) h k
  call-others (has_read buf) id m ps b c k h =
      same_outcome (λ o. All (Knows o.0.file o.0.lastwrite) ps) h k
  call-others writer id m ps b c k h =
      same_outcome (λ o. All (Knows o.0.file o.0.lastwrite) ps)
        (allowed (m.writing || ltb 0 m.readers) h) k
  call-others {m'} marks id m ps b c k h =
      let quiet = alone_lem m (total holds_read ps + 0) (total holds_write ps) b c in
      idle-Knows m'.file m'.lastwrite ps (omega (arith, quiet.0)) quiet.1
  call-others {m'} writes id m ps b c k h =
      let quiet = alone_lem m (total holds_read ps + 0) (total holds_write ps) b c in
      idle-Knows m'.file m'.lastwrite ps (omega (arith, quiet.0)) quiet.1
  call-others has_written id m ps b c k h =
      same_outcome (λ o. All (Knows o.0.file o.0.lastwrite) ps) h k
  call-others reader_done id m ps b c k h = cc
  call-others writer_done id m ps b c k h = cc
