-- ===== src/Pipes/Greeting.antt =====
-- A parent and a child that greet each other: lab7/pipes.c with a pipe for each
-- direction, hw5/pipes.c with one pipe for both, and examples/Lab06/pipes.c with wrong ends. The
-- codes are 0 for the parent and 1 for the child. sleep(1) orders nothing for certain, and is left
-- out.
pub mod Outcomes
use cs507_unix_programming.Prelude.{
  ℕ, zero, suc, List, [], ◌∷◌, Bytes, length, get_or, Option, none, some,
}
use cs507_unix_programming.Pipes.{
  End, reading, writing, Descriptor, Op, forks, reads, writes, closes, waits, exits, Process, Pipe,
  State, empty, ended,
}

-- The messages, with their NUL.
-- "hello parent"
abbrev pub hello_parent : Bytes
hello_parent =
    b'h' ∷ b'e' ∷ b'l' ∷ b'l' ∷ b'o' ∷ 32 ∷ b'p' ∷ b'a' ∷ b'r' ∷ b'e' ∷ b'n' ∷ b't' ∷ 0 ∷ []

-- "hello child"
abbrev pub hello_child : Bytes
hello_child = b'h' ∷ b'e' ∷ b'l' ∷ b'l' ∷ b'o' ∷ 32 ∷ b'c' ∷ b'h' ∷ b'i' ∷ b'l' ∷ b'd' ∷ 0 ∷ []

-- "hello to parent"
abbrev pub hello_to_parent : Bytes
hello_to_parent =
    b'h' ∷ b'e' ∷ b'l' ∷ b'l' ∷ b'o' ∷ 32 ∷ b't' ∷ b'o' ∷ 32 ∷ b'p' ∷ b'a' ∷ b'r' ∷ b'e' ∷ b'n'
    ∷ b't' ∷ 0 ∷ []

-- "hello to child"
abbrev pub hello_to_child : Bytes
hello_to_child =
    b'h' ∷ b'e' ∷ b'l' ∷ b'l' ∷ b'o' ∷ 32 ∷ b't' ∷ b'o' ∷ 32 ∷ b'c' ∷ b'h' ∷ b'i' ∷ b'l' ∷ b'd' ∷ 0
    ∷ []

abbrev pub greeting : (parent child : List Op) → (code : ℕ) → List Op
greeting parent child zero = parent
greeting parent child (suc n) = child

abbrev pub both_ends : (pipe : ℕ) → List Descriptor
both_ends pipe = (pipe, reading) ∷ (pipe, writing) ∷ []

-- Behind pipe(2).
abbrev pub one_pipe : List Op → State
one_pipe parent = record {
  pipes = empty ∷ [];
  processes = record { script = parent; open_ends = both_ends 0; children = []; got = [] } ∷ [];
}

-- Behind the two calls of pipe(2): 0 is c2pfifo, 1 is p2cfifo.
abbrev pub two_pipes : List Op → State
two_pipes parent = record {
  pipes = empty ∷ empty ∷ [];
  processes =
      record {
        script = parent;
        open_ends = (0, reading) ∷ (0, writing) ∷ (1, reading) ∷ (1, writing) ∷ [];
        children = [];
        got = [];
      }
      ∷ [];
}

-- lab7/pipes.c
abbrev pub two_parent : List Op
two_parent =
    forks 1
    ∷ reads 0 reading (length hello_parent)
    ∷ writes 1 writing hello_child
    ∷ waits
    ∷ exits
    ∷ []

abbrev pub two_child : List Op
two_child = writes 0 writing hello_parent ∷ reads 1 reading (length hello_child) ∷ exits ∷ []

-- hw5/pipes.c
abbrev pub one_parent : List Op
one_parent =
    forks 1
    ∷ reads 0 reading (length hello_to_parent)
    ∷ writes 0 writing hello_to_child
    ∷ waits
    ∷ exits
    ∷ []

abbrev pub one_child : List Op
one_child = writes 0 writing hello_to_parent ∷ reads 0 reading (length hello_to_child) ∷ exits ∷ []

-- examples/Lab06/pipes.c
abbrev pub wrong_parent : List Op
wrong_parent =
    forks 1
    ∷ reads 0 reading (length hello_parent)
    ∷ writes 0 reading hello_child
    ∷ waits
    ∷ exits
    ∷ []

abbrev pub wrong_child : List Op
wrong_child = writes 0 writing hello_parent ∷ reads 0 writing (length hello_child) ∷ exits ∷ []
