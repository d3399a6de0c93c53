-- ===== src/Rwlock/Races.antt =====
-- Readers at the same time: the lock lets them in together, and they share one offset.
use cs507_unix_programming.Prelude.{
  ℕ, ◌+◌, ◌≤◌, List, [], ◌∷◌, ◌++◌, Bool, true, false, some, Bytes, length, take, drop, take-length,
  append-nil, ◌≡◌, refl, ap, ◌∙◌, arith,
}
use cs507_unix_programming.Rwlock.{
  bufsize, Shared, reader, seeks, reads, has_read, writer, marks, writes, has_written, writer_done,
  call, calls, Reach, here, later, created,
}
use cs507_unix_programming.Rwlock.Sharing.{drop-all}

-- Where the file has one message, and both readers have sought its start.
abbrev sought : Bytes → Shared
sought file = record {
  file = file;
  offset = 0;
  lastwrite = some 0;
  mesg = 1;
  readers = 2;
  writing = false;
}

-- The calls of the first writer, then those of two readers up to lseek.
reach_sought :
    (text : ℕ → ℕ → Bytes)
    → Reach text (writer ∷ reader ∷ reader ∷ []) (record {
      shared = sought (text 0 1 ++ drop (0 + length (text 0 1)) []);
      threads = writer_done ∷ reads ∷ reads ∷ [];
    })
reach_sought text =
    later
      (later
        (later
          (later
            (later
              (later
                (later (later here (calls [] writer (reader ∷ reader ∷ []) 0 refl refl))
                  (calls [] marks (reader ∷ reader ∷ []) 0 refl refl))
                (calls [] writes (reader ∷ reader ∷ []) 0 refl refl))
              (calls [] has_written (reader ∷ reader ∷ []) 0 refl refl))
            (calls (writer_done ∷ []) reader (reader ∷ []) 1 refl refl))
          (calls (writer_done ∷ seeks ∷ []) reader [] 2 refl refl))
        (calls (writer_done ∷ []) seeks (seeks ∷ []) 1 refl refl))
      (calls (writer_done ∷ reads ∷ []) seeks [] 2 refl refl)

reach_read :
    (text : ℕ → ℕ → Bytes) (file : Bytes)
    → length file ≤ bufsize
    → Reach text
        (writer ∷ reader ∷ reader ∷ [])
        (record { shared = sought file; threads = writer_done ∷ reads ∷ reads ∷ [] })
    → Reach text (writer ∷ reader ∷ reader ∷ []) (record {
      shared = record (sought file) { offset = length file };
      threads = writer_done ∷ has_read file ∷ has_read [] ∷ [];
    })
reach_read text file short r =
    let whole : take bufsize file ≡ file = take-length bufsize file short in
    let rest : take bufsize (drop (length file) file) ≡ [] =
      ap (take bufsize) (drop-all file (length file) (omega arith)) in
    later (later r (calls (writer_done ∷ []) reads (reads ∷ []) 1 refl (first whole)))
      (calls (writer_done ∷ has_read file ∷ []) reads [] 2 refl (second rest))
  where
    first :
        take bufsize file ≡ file
        → call text 1 reads (sought file)
          ≡ some (record (sought file) { offset = length file }, has_read file)
    first e =
        ap (λ f. some (record (sought file) { offset = 0 + length f }, has_read f)) e
        ∙ ap (λ n. some (record (sought file) { offset = n }, has_read file)) (omega arith)

    second :
        take bufsize (drop (length file) file) ≡ []
        → call text 2 reads (record (sought file) { offset = length file })
          ≡ some (record (sought file) { offset = length file }, has_read [])
    second e =
        ap (λ f. some (record (sought file) { offset = length file + length f }, has_read f)) e
        ∙ ap (λ n. some (record (sought file) { offset = n }, has_read [])) (omega arith)

-- Where the third thread is a reader and the first message with its NUL fits the buffer, three
-- threads reach a state in which the first reader has read the message and the second, with the
-- lock at the same time, has read nothing, since both sought the start before either read.
pub read_misses :
    (text : ℕ → ℕ → Bytes) (bs : List Bool)
    → length (text 0 1) ≤ bufsize
    → Reach text (created 3 (true ∷ true ∷ true ∷ bs)) (record {
      shared = record (sought (text 0 1)) { offset = length (text 0 1) };
      threads = writer_done ∷ has_read (text 0 1) ∷ has_read [] ∷ [];
    })
read_misses text bs short = reach_read text (text 0 1) short (rw whole (reach_sought text))
  where
    whole : text 0 1 ≡ text 0 1 ++ drop (0 + length (text 0 1)) []
    whole = rw (drop-all [] (0 + length (text 0 1)) (omega arith), append-nil (text 0 1)) refl
