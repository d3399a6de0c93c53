-- ===== src/Pipes.antt =====
-- Processes that share pipes: what pipe(2), read(2), write(2), close(2), fork(2) and wait(2) do, for
-- the programs under Pipes/.
pub mod Exploring
pub mod Order
pub mod Greeting
mod Tests
pub mod Echo
use cs507_unix_programming.Prelude.{
  ℕ, zero, suc, ◌+◌, List, [], ◌∷◌, ◌++◌, Bool, true, false, not, ◌&&◌, ◌||◌, Option, none, some,
  Bytes, length, get_or, set, take, drop, if◌then◌else◌, ◌==◌,
}

-- The two descriptors of a pipe: fifo[0] and fifo[1].
pub data End : Type 0 where
  reading writing : End

-- A descriptor: the number of the pipe, and its end.
abbrev pub Descriptor : Type 0
Descriptor = ℕ × End

-- A call of a process. `forks` makes a process that runs the code of that number.
pub data Op : Type 0 where
  forks : (code : ℕ) → Op
  reads : (pipe : ℕ) → End → (size : ℕ) → Op
  writes : (pipe : ℕ) → End → (text : Bytes) → Op
  closes : (pipe : ℕ) → End → Op
  waits exits : Op

-- The calls that are left, the descriptors that are open, the children, and what each read(2) gave,
-- none for -1.
pub record Process : Type 0 where
  pub script : List Op
  pub open_ends : List Descriptor
  pub children : List ℕ
  pub got : List (Option Bytes)

-- What a pipe holds, and all that was written to it and read from it so far.
pub record Pipe : Type 0 where
  pub content : Bytes
  pub written : Bytes
  pub taken : Bytes

pub record State : Type 0 where
  pub pipes : List Pipe
  pub processes : List Process

abbrev pub empty : Pipe
empty = record { content = []; written = []; taken = [] }

abbrev pub ended : Process
ended = record { script = []; open_ends = []; children = []; got = [] }

abbrev pub same_end : End → End → Bool
same_end reading reading = true
same_end writing writing = true
same_end reading writing = false
same_end writing reading = false

abbrev pub has : (pipe : ℕ) → End → List Descriptor → Bool
has pipe e [] = false
has pipe e ((p, f) ∷ ds) = (p == pipe && same_end f e) || has pipe e ds

abbrev pub without : (pipe : ℕ) → End → List Descriptor → List Descriptor
without pipe e [] = []
without pipe e ((p, f) ∷ ds) =
    if p == pipe && same_end f e then without pipe e ds else (p, f) ∷ without pipe e ds

-- Whether some process has the descriptor open.
abbrev pub held : (pipe : ℕ) → End → List Process → Bool
held pipe e [] = false
held pipe e (p ∷ ps) = has pipe e p.open_ends || held pipe e ps

abbrev pub over : Process → Bool
over p = elim p.script [ [] ↦ true | op ∷ ops ↦ false ]

abbrev pub any_over : List Process → (children : List ℕ) → Bool
any_over ps [] = false
any_over ps (c ∷ cs) = over (get_or ps c ended) || any_over ps cs

-- The process `k` goes on as `p`.
abbrev pub go_on : (k : ℕ) → Process → State → State
go_on k p s = record s { processes = set s.processes k p }

abbrev pub gives : (k : ℕ) → Process → Option Bytes → State → State
gives k p result s = go_on k (record p { got = p.got ++ result ∷ [] }) s

-- read(2) on the end for reading: it gives what there is, up to the size, and waits while there is
-- nothing and some process can still write.
abbrev pub read_pipe :
    (k : ℕ) → Process → (pipe size : ℕ) → (content : Bytes) → State → Option State
read_pipe k p pipe size [] s =
    if held pipe writing s.processes then none else some (gives k p (some []) s)
read_pipe k p pipe size (c ∷ cs) s =
    let old = get_or s.pipes pipe empty in
    some (
      gives k p (some (take size (c ∷ cs))) (record s {
        pipes =
            set s.pipes pipe (record old {
              content = drop size (c ∷ cs);
              taken = old.taken ++ take size (c ∷ cs);
            });
      }))

-- write(2) on the end for writing, which has room: without a reader the process is ended by SIGPIPE.
abbrev pub write_pipe : (k : ℕ) → Process → (pipe : ℕ) → (text : Bytes) → State → State
write_pipe k p pipe text s =
    if held pipe reading s.processes
    then (let old = get_or s.pipes pipe empty in
        go_on k p (record s {
          pipes =
              set s.pipes pipe
                (record old { content = old.content ++ text; written = old.written ++ text });
        }))
    else go_on k (record p { script = []; open_ends = [] }) s

-- The call `op` of the process `k`, which goes on as `p`. A wrong or closed descriptor gives -1.
abbrev pub call : (code : ℕ → List Op) → (k : ℕ) → Process → Op → State → Option State
call code k p (forks c) s = some (record s {
  processes =
      set s.processes k (record p { children = length s.processes ∷ p.children })
      ++ (record { script = code c; open_ends = p.open_ends; children = []; got = [] } ∷ []);
})
call code k p (reads pipe reading size) s =
    if has pipe reading p.open_ends
    then read_pipe k p pipe size (get_or s.pipes pipe empty).content s
    else some (gives k p none s)
call code k p (reads pipe writing size) s = some (gives k p none s)
call code k p (writes pipe writing text) s =
    if has pipe writing p.open_ends then some (write_pipe k p pipe text s) else some (go_on k p s)
call code k p (writes pipe reading text) s = some (go_on k p s)
call code k p (closes pipe e) s =
    some (go_on k (record p { open_ends = without pipe e p.open_ends }) s)
call code k p waits s = if any_over s.processes p.children then some (go_on k p s) else none
call code k p exits s = some (go_on k (record p { script = []; open_ends = [] }) s)

-- The next call of the process `k`; none if it waits, or has ended.
unfoldable pub step : (code : ℕ → List Op) → (k : ℕ) → State → Option State
step code k s =
    let p = get_or s.processes k ended in
    elim p.script [ [] ↦ none | op ∷ ops ↦ call code k (record p { script = ops }) op s ]
