-- ===== src/Rwlock/Reaching.antt =====
-- What every run of the readers and writers keeps.
use mathlib.Core.Path.{subst}
use cs507_unix_programming.Prelude.{
  ℕ, zero, suc, ◌+◌, ◌≤◌, List, [], ◌∷◌, ◌++◌, Bool, true, false, none, some, Bytes, length, take,
  drop, All, ◌≡◌, refl, sym, inl, arith,
}
use cs507_unix_programming.Rwlock.{
  bufsize, Shared, State, Pc, reader, seeks, reads, has_read, reader_done, writer, marks, writes,
  has_written, writer_done, call, start, Step, calls, Reach, here, later, kinds, created,
}
use cs507_unix_programming.Rwlock.Messages.{
  total, total-append, All-append, All-split, holds_read, holds_write, between, marked, Knows,
  Counts, Story,
}
use cs507_unix_programming.Rwlock.Sharing.{call-Counts, call-Knows, call-others, idle-Knows}
use cs507_unix_programming.Rwlock.Content.{call-Story}

-- The invariant of a state.
record Inv (text : ℕ → ℕ → Bytes) (s : State) : Type 0 where
  counts :
      Counts s.shared
        (total holds_read s.threads)
        (total holds_write s.threads)
        (total between s.threads)
  knows : All (Knows s.shared.file s.shared.lastwrite) s.threads
  story : Story text s.shared (total marked s.threads)

around :
    (w : Pc → ℕ) (before : List Pc) (p : Pc) (after : List Pc)
    → total w (before ++ p ∷ after) ≡ total w (before ++ after) + w p
around w before p after =
    omega (arith, total-append w before (p ∷ after), total-append w before after)

between_reads : (ps : List Pc) → total between ps ≤ total holds_read ps
between_reads [] = omega arith
between_reads (p ∷ ps) = omega (arith, one p, between_reads ps)
  where
    one : (p : Pc) → between p ≤ holds_read p
    one reader = omega arith
    one seeks = omega arith
    one reads = omega arith
    one (has_read buf) = omega arith
    one reader_done = omega arith
    one writer = omega arith
    one marks = omega arith
    one writes = omega arith
    one has_written = omega arith
    one writer_done = omega arith

All-insert :
    (P : Pc → Type 0) (before : List Pc) (p : Pc) (after : List Pc)
    → P p
    → All P (before ++ after)
    → All P (before ++ p ∷ after)
All-insert P before p after h k =
    let parts = All-split P before after k in All-append P before (p ∷ after) parts.0 (h, parts.1)

All-remove :
    (P : Pc → Type 0) (before : List Pc) (p : Pc) (after : List Pc)
    → All P (before ++ p ∷ after)
    → P p × All P (before ++ after)
All-remove P before p after h =
    let parts = All-split P before (p ∷ after) h in
    (parts.1.0, All-append P before after parts.0 parts.1.1)

start-total :
    (w : Pc → ℕ)
    → w reader ≡ 0
    → w writer ≡ 0
    → (n : ℕ) (bs : List Bool) → total w (created n bs) ≡ 0
start-total w h k n bs =
    taken n (writer ∷ reader ∷ kinds (drop 2 bs)) (omega (arith, all_kinds (drop 2 bs), h, k))
  where
    taken : (n : ℕ) (ps : List Pc) → total w ps ≡ 0 → total w (take n ps) ≡ 0
    taken zero ps e = refl
    taken (suc n) [] e = refl
    taken (suc n) (p ∷ ps) e = omega (arith, e, taken n ps (omega (arith, e)))

    all_kinds : (bs : List Bool) → total w (kinds bs) ≡ 0
    all_kinds [] = refl
    all_kinds (true ∷ bs) = omega (arith, h, all_kinds bs)
    all_kinds (false ∷ bs) = omega (arith, k, all_kinds bs)

module _ (text : ℕ → ℕ → Bytes) (short : (i n : ℕ) → length (text i n) ≤ bufsize) where
  start-Inv : (n : ℕ) (bs : List Bool) → Inv text (start (created n bs))
  start-Inv n bs = record {
    counts = record {
      readers = start-total holds_read refl refl n bs;
      writer_count = start-total holds_write refl refl n bs;
      alone = λ h. refl;
      at_end = λ h. refl;
      offset = inl refl;
      starts = omega arith;
      fits = omega arith;
    };
    knows =
        idle-Knows [] none (created n bs) (start-total holds_read refl refl n bs)
          (start-total holds_write refl refl n bs);
    story = record { writers = []; numbered = refl; content = refl; last = λ h. refl };
  }

  -- One call, of a thread between the others.
  moved :
      (before : List Pc) (p : Pc) (after : List Pc) (id : ℕ) (m m' : Shared) (q : Pc)
      → Inv text (record { shared = m; threads = before ++ p ∷ after })
      → call text id p m ≡ some (m', q)
      → Inv text (record { shared = m'; threads = before ++ q ∷ after })
  moved before p after id m m' q v h =
      let rest = before ++ after in
      let count = λ (w : Pc → ℕ). around w before p after in
      let c : Counts m (total holds_read rest + holds_read p)
          (total holds_write rest + holds_write p) (total between rest + between p) =
        rw (sym (count holds_read), sym (count holds_write), sym (count between)) v.counts in
      let s : Story text m (total marked rest + marked p) = rw (sym (count marked)) v.story in
      let k = All-remove (Knows m.file m.lastwrite) before p after v.knows in
      let l = between_reads rest in
      record {
        counts =
            rw
              (
                around holds_read before q after,
                around holds_write before q after,
                around between before q after,
              )
              (call-Counts text short p id m (total holds_read rest) (total holds_write rest)
                (total between rest) l c k.0 h);
        knows =
            All-insert (Knows m'.file m'.lastwrite) before q after
              (call-Knows text short p id m (total holds_read rest) (total holds_write rest)
                (total between rest) l c h)
              (call-others text short p id m rest (total between rest + between p) c k.1 h);
        story = rw (around marked before q after) (
            call-Story text short p id m (total holds_read rest) (total holds_write rest)
              (total between rest) (total marked rest) l c k.0 s h);
      }

  step-Inv : {s t : State} → Inv text s → Step text s t → Inv text t
  step-Inv {s} v (calls before p after id {m} {q} e h) =
      moved before p after id s.shared m q
        (subst (λ ps. Inv text (record { shared = s.shared; threads = ps })) e v) h

  run-Inv : (n : ℕ) (bs : List Bool) {s : State} → Reach text (created n bs) s → Inv text s
  run-Inv n bs here = start-Inv n bs
  run-Inv n bs (later r st) = step-Inv (run-Inv n bs r) st

-- In every state that the threads of thrd_rdlock.c reach in any order, where no message with
-- its NUL is longer than the buffer: the file holds the messages of the writers one behind the
-- other, numbered from 1, mesg is their number, and lastwrite is where the last one starts
-- unless a writer stands between lseek and write; every reader between read and unlock has read
-- nothing or everything from lastwrite on, and a writer between lseek and write has marked the
-- end of the file.
pub run-Story :
    (text : ℕ → ℕ → Bytes) (n : ℕ) (bs : List Bool) (s : State)
    → ((i k : ℕ) → length (text i k) ≤ bufsize)
    → Reach text (created n bs) s
    → All (Knows s.shared.file s.shared.lastwrite) s.threads
      × Story text s.shared (total marked s.threads)
run-Story text n bs s short r = let v = run-Inv text short n bs r in (v.knows, v.story)
