-- ===== src/Rwlock/Messages.antt =====
-- The invariant: how the lock is held, where the descriptor stands, and what is in the file.
use cs507_unix_programming.Prelude.{
  ℕ, ◌+◌, ◌≤◌, List, [], ◌∷◌, ◌++◌, Bool, true, false, Option, none, some, Bytes, length, drop, All,
  ◌≡◌, ◌⊎◌, arith,
}
use cs507_unix_programming.Rwlock.{
  bufsize, Shared, Pc, seeks, reads, has_read, marks, writes, has_written,
}

abbrev pub total : (Pc → ℕ) → List Pc → ℕ
total w [] = 0
total w (p ∷ ps) = w p + total w ps

pub total-append : (w : Pc → ℕ) (ps qs : List Pc) → total w (ps ++ qs) ≡ total w ps + total w qs
total-append w [] qs = omega arith
total-append w (p ∷ ps) qs = omega (arith, total-append w ps qs)

pub All-append : (P : Pc → Type 0) (ps qs : List Pc) → All P ps → All P qs → All P (ps ++ qs)
All-append P [] qs h k = k
All-append P (p ∷ ps) qs h k = (h.0, All-append P ps qs h.1 k)

pub All-split : (P : Pc → Type 0) (ps qs : List Pc) → All P (ps ++ qs) → All P ps × All P qs
All-split P [] qs h = (tt, h)
All-split P (p ∷ ps) qs h = let r = All-split P ps qs h.1 in ((h.0, r.0), r.1)

-- Holding the lock for reading, or for writing.
abbrev pub holds_read : Pc → ℕ
holds_read seeks = 1
holds_read reads = 1
holds_read (has_read buf) = 1
holds_read p = 0

abbrev pub holds_write : Pc → ℕ
holds_write marks = 1
holds_write writes = 1
holds_write has_written = 1
holds_write p = 0

-- Between lseek and read.
abbrev pub between : Pc → ℕ
between reads = 1
between p = 0

abbrev pub marked : Pc → ℕ
marked writes = 1
marked p = 0

abbrev pub held : Bool → ℕ
held true = 1
held false = 0

abbrev pub start_of : Option ℕ → ℕ
start_of none = 0
start_of (some n) = n

-- What a thread knows of the file: a reader has read nothing or the end from `lastwrite` on, and a
-- writer that is about to write has marked the end of the file.
abbrev pub Knows : Bytes → Option ℕ → Pc → Type 0
Knows file last (has_read buf) = (buf ≡ []) ⊎ (buf ≡ drop (start_of last) file)
Knows file last writes = last ≡ some (length file)
Knows file last p = Unit

-- The messages of the threads in a list, the last one first.
abbrev pub messages : (text : ℕ → ℕ → Bytes) → List ℕ → Bytes
messages text [] = []
messages text (i ∷ is) = messages text is ++ text i (length is + 1)

abbrev pub last_start : (text : ℕ → ℕ → Bytes) → List ℕ → Option ℕ
last_start text [] = none
last_start text (i ∷ is) = some (length (messages text is))

-- The lock and the descriptor, where so many threads hold the lock for reading and for writing, and
-- so many stand between lseek and read.
pub record Counts (m : Shared) (reading writing_count seeking : ℕ) : Type 0 where
  pub readers : reading ≡ m.readers
  pub writer_count : writing_count ≡ held m.writing
  pub alone : m.writing ≡ true → m.readers ≡ 0
  pub at_end : seeking ≡ 0 → m.offset ≡ length m.file
  pub offset : (m.offset ≡ length m.file) ⊎ (m.offset ≡ start_of m.lastwrite)
  pub starts : start_of m.lastwrite ≤ length m.file
  pub fits : length m.file ≤ start_of m.lastwrite + bufsize

-- The file holds the messages of those writers, and `lastwrite` is where the last one starts, if no
-- writer stands between its lseek and its write.
pub record Story (text : ℕ → ℕ → Bytes) (m : Shared) (marking : ℕ) : Type 0 where
  pub writers : List ℕ
  pub numbered : length writers ≡ m.mesg
  pub content : m.file ≡ messages text writers
  pub last : marking ≡ 0 → m.lastwrite ≡ last_start text writers
