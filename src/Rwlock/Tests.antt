-- ===== src/Rwlock/Tests.antt =====
-- The theorems on thrd_rdlock.c at a run with one writer and two readers.
use cs507_unix_programming.Prelude.{ℕ, ◌+◌, Bytes, [], ◌∷◌, true, false, some, All, arith}
use cs507_unix_programming.Rwlock.{State, Reach, created, writer_done, has_read}
use cs507_unix_programming.Rwlock.Messages.{total, marked, Knows, Story}
use cs507_unix_programming.Rwlock.Reaching.{run-Story}
use cs507_unix_programming.Rwlock.Races.{read_misses}

abbrev two_numbers : ℕ → ℕ → Bytes
two_numbers i n = (i + 48) ∷ (n + 48) ∷ 10 ∷ 0 ∷ []

abbrev missed : State
missed = record {
  shared = record {
    file = 48 ∷ 49 ∷ 10 ∷ 0 ∷ [];
    offset = 4;
    lastwrite = some 0;
    mesg = 1;
    readers = 2;
    writing = false;
  };
  threads = writer_done ∷ has_read (48 ∷ 49 ∷ 10 ∷ 0 ∷ []) ∷ has_read [] ∷ [];
}

Reach-missed : Reach two_numbers (created 3 (true ∷ true ∷ true ∷ [])) missed
Reach-missed = read_misses two_numbers (true ∷ true ∷ true ∷ []) (omega arith)

run-Story_example :
    All (Knows missed.shared.file missed.shared.lastwrite) missed.threads
    × Story two_numbers missed.shared (total marked missed.threads)
run-Story_example =
    run-Story two_numbers 3 (true ∷ true ∷ true ∷ []) missed (λ i k. omega arith) Reach-missed
