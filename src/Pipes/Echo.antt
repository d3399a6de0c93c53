-- ===== src/Pipes/Echo.antt =====
-- midtermQuisberth.c: a parent sends its argument through a pipe to its second child. The first
-- child forks too, since it has not left `main`, and so do two processes what is meant for one.
use cs507_unix_programming.Prelude.{
  ℕ, zero, suc, List, [], ◌∷◌, Bytes, take, some, get_or, ◌≡◌, refl,
}
use cs507_unix_programming.Pipes.{
  reading, writing, Op, forks, reads, writes, closes, waits, exits, State, empty, ended, step,
}
use cs507_unix_programming.Pipes.Exploring.{Run, here, after}

-- The size of readbuffer, and of childreadbuffer.
abbrev pub buffer_size : ℕ
buffer_size = 80

-- The branch `child1 == 0`. The read fails, since the descriptor is closed; `unread` is what the
-- buffer holds anyway, up to its NUL.
abbrev pub first_child : (unread : Bytes) → List Op
first_child unread =
    closes 0 reading ∷ reads 0 reading buffer_size ∷ writes 0 writing unread ∷ exits ∷ []

-- The branch `child2 == 0`.
abbrev pub second_child : List Op
second_child = closes 0 writing ∷ reads 0 reading buffer_size ∷ exits ∷ []

-- main up to its end in the parent; `argument` is argv[1] with its NUL.
abbrev pub parent : (argument : Bytes) → List Op
parent argument =
    forks 1
    ∷ forks 2
    ∷ closes 0 reading
    ∷ writes 0 writing argument
    ∷ closes 0 writing
    ∷ waits
    ∷ exits
    ∷ []

-- The codes: main, its two children, and the child of the first child.
abbrev pub codes : (argument unread : Bytes) → ℕ → List Op
codes argument unread zero = parent argument
codes argument unread (suc zero) = forks 3 ∷ first_child unread
codes argument unread (suc (suc zero)) = second_child
codes argument unread (suc (suc (suc n))) = first_child unread

-- Behind pipe(2), with one argument.
abbrev pub start : (argument : Bytes) → State
start argument = record {
  pipes = empty ∷ [];
  processes =
      record {
        script = parent argument;
        open_ends = (0, reading) ∷ (0, writing) ∷ [];
        children = [];
        got = [];
      }
      ∷ [];
}

-- Whatever the argument of midtermQuisberth.c: if the buffer that the first child has not
-- filled is, up to its NUL, the bytes given (the NUL included), a run of 8 calls leads to a
-- state in which the second child has read the first 80 of them and nothing of the argument.
pub second_child_reads_unread :
    (argument : Bytes) (c : ℕ) (unread : Bytes)
    → (t : State) × Run (codes argument (c ∷ unread)) 8 (start argument) t
      × ((get_or t.processes 2 ended).got ≡ some (take buffer_size (c ∷ unread)) ∷ [])
unfolding step
second_child_reads_unread argument c unread = (
  _,
  after 7 0 refl (
      after 6 0 refl (
        after 5 1 refl (
          after 4 1 refl
            (after 3 1 refl (after 2 1 refl (after 1 2 refl (after 0 2 refl (here _)))))))),
  refl,
)
