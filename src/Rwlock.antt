-- ===== src/Rwlock.antt =====
-- examples/example-thrd/thrd_rdlock.c: readers and writers of one file descriptor, under a lock for
-- reading and writing.
pub mod Messages
pub mod Sharing
pub mod Content
pub mod Reaching
pub mod Races
mod Tests
use cs507_unix_programming.Prelude.{
  ℕ, ◌+◌, ◌-◌, List, [], ◌∷◌, ◌++◌, Bool, true, false, ◌||◌, Option, none, some, Bytes, length,
  take, drop, ltb, if◌then◌else◌, ◌==◌, ◌≡◌,
}

-- The size of the buffer of a thread.
abbrev pub bufsize : ℕ
bufsize = 256

-- The file with the offset of its descriptor, the globals `lastwrite`, none for -1, and `mesg`, and
-- the lock. The counters `rctr` and `wctr`, which are only shown, are left out.
pub record Shared : Type 0 where
  pub file : Bytes
  pub offset : ℕ
  pub lastwrite : Option ℕ
  pub mesg : ℕ
  pub readers : ℕ
  pub writing : Bool

-- Where a thread stands. `thrdReader`: before the lock, before lseek, before read, before the
-- unlock with what it has read, and behind it. `thrdWriter`: before the lock, before lseek, before
-- write, before the unlock, and behind it.
pub data Pc : Type 0 where
  reader seeks reads : Pc
  has_read : Bytes → Pc
  reader_done writer marks writes has_written writer_done : Pc

-- lseek(fd, lastwrite, SEEK_SET), if `lastwrite` is not negative.
abbrev pub seek : Option ℕ → (offset : ℕ) → ℕ
seek none offset = offset
seek (some start) offset = start

-- What read(2) gives, for `bufsize` bytes.
abbrev pub read : Shared → Bytes
read m = take bufsize (drop m.offset m.file)

-- write(2) at an offset within the file.
abbrev pub write : Bytes → Shared → Shared
write text m = record m {
  file = take m.offset m.file ++ (text ++ drop (m.offset + length text) m.file);
  offset = m.offset + length text;
}

-- The next call of a thread; none where it blocks, or has ended. `text thrdid mesg` is the message
-- that sprintf makes, with its NUL. `thrdid` may be any number: it is looked up in an array that
-- main may not have filled yet.
abbrev pub call : (text : ℕ → ℕ → Bytes) → (thrdid : ℕ) → Pc → Shared → Option (Shared × Pc)
call text thrdid reader m =
    if m.writing then none else some (record m { readers = m.readers + 1 }, seeks)
call text thrdid seeks m = some (record m { offset = seek m.lastwrite m.offset }, reads)
call text thrdid reads m =
    some (record m { offset = m.offset + length (read m) }, has_read (read m))
call text thrdid (has_read buf) m = some (record m { readers = m.readers - 1 }, reader_done)
call text thrdid writer m =
    if m.writing || ltb 0 m.readers then none else some (record m { writing = true }, marks)
call text thrdid marks m = some (record m { lastwrite = some m.offset }, writes)
call text thrdid writes m =
    some (write (text thrdid (m.mesg + 1)) (record m { mesg = m.mesg + 1 }), has_written)
call text thrdid has_written m = some (record m { writing = false }, writer_done)
call text thrdid reader_done m = none
call text thrdid writer_done m = none

pub record State : Type 0 where
  pub shared : Shared
  pub threads : List Pc

-- The file is empty, and the lock is free.
abbrev pub start : List Pc → State
start threads = record {
  shared = record {
    file = [];
    offset = 0;
    lastwrite = none;
    mesg = 0;
    readers = 0;
    writing = false;
  };
  threads = threads;
}

-- One of the threads makes its next call.
pub data Step (text : ℕ → ℕ → Bytes) (s : State) : State → Type 0 where
  calls :
      (before : List Pc) (p : Pc) (after : List Pc) (thrdid : ℕ) {m : Shared} {q : Pc}
      → s.threads ≡ before ++ p ∷ after
      → call text thrdid p s.shared ≡ some (m, q)
      → Step text s (record { shared = m; threads = before ++ q ∷ after })

-- What `main` makes: a writer first, a reader second, and then either, by a random number.
abbrev pub kinds : List Bool → List Pc
kinds [] = []
kinds (b ∷ bs) = (if b then reader else writer) ∷ kinds bs

abbrev pub created : (thrdmax : ℕ) → (below_half : List Bool) → List Pc
created thrdmax below_half = take thrdmax (writer ∷ reader ∷ kinds (drop 2 below_half))

pub data Reach (text : ℕ → ℕ → Bytes) (threads : List Pc) : State → Type 0 where
  here : Reach text threads (start threads)
  later : {s t : State} → Reach text threads s → Step text s t → Reach text threads t
