-- ===== src/Pipes/Order.antt =====
-- A pipe gives what was written to it, in order, whatever the processes do.
use mathlib.Core.Path.{subst}
use cs507_unix_programming.Prelude.{
  ℕ, zero, suc, List, [], ◌∷◌, ◌++◌, append_assoc, Bool, true, false, Option, none, some, Bytes,
  get_or, set, take, drop, take-append-drop, All, if◌then◌else◌, ◌≡◌, refl, ap, sym, ◌∙◌,
}
use cs507_unix_programming.Pipes.{
  reading, writing, Op, forks, reads, writes, closes, waits, exits, Process, Pipe, State, empty,
  ended, has, held, any_over, go_on, read_pipe, write_pipe, call, step,
}
use cs507_unix_programming.Pipes.Exploring.{Run, here, after}

-- What was written is what was read, and behind it what the pipe holds.
abbrev pub Fifo : Pipe → Type 0
Fifo p = p.written ≡ p.taken ++ p.content

All-set :
    {A : Type 0} (P : A → Type 0) (xs : List A) (i : ℕ) (v : A)
    → All P xs
    → P v
    → All P (set xs i v)
All-set P [] i v h k = h
All-set P (x ∷ xs) zero v h k = (k, h.1)
All-set P (x ∷ xs) (suc i) v h k = (h.0, All-set P xs i v h.1 k)

All-get_or :
    {A : Type 0} (P : A → Type 0) (xs : List A) (i : ℕ) (d : A) → All P xs → P d → P (get_or xs i d)
All-get_or P [] i d h k = k
All-get_or P (x ∷ xs) zero d h k = h.0
All-get_or P (x ∷ xs) (suc i) d h k = All-get_or P xs i d h.1 k

-- What holds of the state after a call, if the call is made.
abbrev Then : Option State → Type 0
Then none = Unit
Then (some t) = All Fifo t.pipes

if-Then : (b : Bool) (x y : Option State) → Then x → Then y → Then (if b then x else y)
if-Then true x y h k = h
if-Then false x y h k = k

read-Fifo :
    (size : ℕ) (p : Pipe)
    → Fifo p
    → Fifo (record p { content = drop size p.content; taken = p.taken ++ take size p.content })
read-Fifo size p h =
    h
    ∙ ap (◌++◌ p.taken) (sym (take-append-drop size p.content))
    ∙ sym (append_assoc p.taken (take size p.content) (drop size p.content))

write-Fifo :
    (text : Bytes) (p : Pipe)
    → Fifo p
    → Fifo (record p { content = p.content ++ text; written = p.written ++ text })
write-Fifo text p h = ap (λ w. w ++ text) h ∙ append_assoc p.taken p.content text

read_pipe-Then :
    (k : ℕ) (p : Process) (pipe size : ℕ) (s : State)
    → All Fifo s.pipes
    → Then (read_pipe k p pipe size (get_or s.pipes pipe empty).content s)
read_pipe-Then k p pipe size s h = given (get_or s.pipes pipe empty).content refl
  where
    given :
        (content : Bytes)
        → content ≡ (get_or s.pipes pipe empty).content
        → Then (read_pipe k p pipe size content s)
    given [] e = if-Then (held pipe writing s.processes) _ _ tt h
    given (c ∷ cs) e =
        let old = get_or s.pipes pipe empty in
        All-set Fifo s.pipes pipe _ h (
          subst (λ b. Fifo (record old { content = drop size b; taken = old.taken ++ take size b }))
            (sym e) (read-Fifo size old (All-get_or Fifo s.pipes pipe empty h refl)))

write_pipe-Then :
    (k : ℕ) (p : Process) (pipe : ℕ) (text : Bytes) (s : State)
    → All Fifo s.pipes
    → All Fifo (write_pipe k p pipe text s).pipes
write_pipe-Then k p pipe text s h = given (held pipe reading s.processes)
  where
    given :
        (b : Bool)
        → All Fifo
            (if b
              then (let old = get_or s.pipes pipe empty in
                  go_on k p (record s {
                    pipes = set s.pipes pipe (record old {
                      content = old.content ++ text;
                      written = old.written ++ text;
                    });
                  }))
              else go_on k (record p { script = []; open_ends = [] }) s).pipes
    given true =
        All-set Fifo s.pipes pipe _ h
          (write-Fifo text (get_or s.pipes pipe empty) (All-get_or Fifo s.pipes pipe empty h refl))
    given false = h

call-Then :
    (code : ℕ → List Op) (k : ℕ) (p : Process) (op : Op) (s : State)
    → All Fifo s.pipes
    → Then (call code k p op s)
call-Then code k p (forks c) s h = h
call-Then code k p (reads pipe reading size) s h =
    if-Then (has pipe reading p.open_ends) _ _ (read_pipe-Then k p pipe size s h) h
call-Then code k p (reads pipe writing size) s h = h
call-Then code k p (writes pipe writing text) s h =
    if-Then (has pipe writing p.open_ends) _ _ (write_pipe-Then k p pipe text s h) h
call-Then code k p (writes pipe reading text) s h = h
call-Then code k p (closes pipe e) s h = h
call-Then code k p waits s h = if-Then (any_over s.processes p.children) _ _ h tt
call-Then code k p exits s h = h

step-Then : (code : ℕ → List Op) (k : ℕ) (s : State) → All Fifo s.pipes → Then (step code k s)
unfolding step
step-Then code k s h = given (get_or s.processes k ended).script
  where
    given :
        (ops : List Op)
        → Then (elim ops [
          | [] ↦ none
          | op ∷ ops ↦ call code k (record (get_or s.processes k ended) { script = ops }) op s
        ])
    given [] = tt
    given (op ∷ ops) =
        call-Then code k (record (get_or s.processes k ended) { script = ops }) op s h

-- Every run keeps the order of the bytes in every pipe.
pub run-Fifo :
    (code : ℕ → List Op) (n : ℕ) {s t : State}
    → Run code n s t
    → All Fifo s.pipes
    → All Fifo t.pipes
run-Fifo code zero (here _) h = h
run-Fifo code (suc _) {s} (after n k {t = u} e r) h =
    run-Fifo code n r (subst Then e (step-Then code k s h))
