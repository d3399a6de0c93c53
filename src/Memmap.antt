-- ===== src/Memmap.antt =====
-- SOLNS/HW09/memmapA.c: two processes exchange their arguments through a mapped file, under two
-- semaphores. The one program plays either part: it looks at the last letter of its name.
pub mod Startup
pub mod Text
pub mod System
pub mod Exclusion
pub mod Races
pub mod Tests
use cs507_unix_programming.Prelude.{
  ℕ, zero, suc, ◌+◌, ◌-◌, List, [], ◌∷◌, ◌++◌, Bool, true, false, Option, none, some, Bytes, length,
  take, drop, if◌then◌else◌, ◌==◌, c_string, not, ◌&&◌, ltb,
}

abbrev pub mem_buf_size : ℕ
mem_buf_size = 256

pub data Sem : Type 0 where
  sem_a sem_b : Sem

-- `!sem`
abbrev pub other : Sem → Sem
other sem_a = sem_b
other sem_b = sem_a

-- What semget, open, write and mmap answer; `first`: semget with IPC_EXCL makes the set.
pub record Host : Type 0 where
  pub first : Bool
  pub joins : Bool
  pub opens : Bool
  pub writes : Bool
  pub maps : Bool

-- `dies`: exit(-1), with the semaphores removed or not. `ready`: `IamA`, `IdidInit`, and the
-- values that the semaphores are given.
pub data Setup : Type 0 where
  dies : (removed : Bool) → Setup
  ready : (i_am_a i_did_init : Bool) → Option (ℕ × ℕ) → Setup

-- `argv[0][strlen(argv[0])-1] == 'A'`
abbrev pub ends_in_a : Bytes → Bool
ends_in_a [] = false
ends_in_a (c ∷ []) = c == b'A'
ends_in_a (c ∷ d ∷ s) = ends_in_a (d ∷ s)

unfoldable pub mapped : Host → (i_am_a i_did_init : Bool) → Option (ℕ × ℕ) → Setup
mapped h a i v = if h.maps then ready a i v else dies true

-- `main` up to "attempt to get access to shared memory file". `IamA` is set only by the process
-- that makes the semaphores.
unfoldable pub setup : Host → (argv0 : Bytes) → Setup
unfolding mapped
setup h argv0 =
    if not h.first
    then (if h.joins && h.opens then mapped h false false none else dies false)
    else (if h.opens && h.writes
        then mapped h (ends_in_a argv0) true (some (if ends_in_a argv0 then (1, 0) else (0, 1)))
        else dies true)

-- The calls of `SendArgs`, `RcvArgs` and `main` that touch what the processes share.
pub data Instr : Type 0 where
  down : Sem → Instr  -- semop, -1
  up : Sem → Instr  -- semop, +1
  raise_both : Instr  -- semop of two, +1 on each
  fill : (args : List Bytes) → Instr  -- the strcpy loop
  show : Instr  -- printf "rcvd <%s>"
  sleep : ℕ → Instr
  remove : Instr  -- semctl IPC_RMID, behind an unlink

unfoldable pub send_args : Sem → List Bytes → List Instr
send_args sem args = down sem ∷ fill args ∷ raise_both ∷ []

unfoldable pub rcv_args : Sem → List Instr
rcv_args sem = down (other sem) ∷ show ∷ up (other sem) ∷ []

-- The four branches of `main`.
unfoldable pub exchange : (i_am_a i_did_init : Bool) → List Bytes → List Instr
unfolding send_args rcv_args
exchange true true args = send_args sem_a args ++ sleep 5 ∷ rcv_args sem_a
exchange true false args = rcv_args sem_a ++ send_args sem_a args
exchange false true args = send_args sem_b args ++ sleep 5 ∷ rcv_args sem_b
exchange false false args = rcv_args sem_b ++ send_args sem_b args

-- "do cleanup", by the process that did the initialization
unfoldable pub program : (i_am_a i_did_init : Bool) → List Bytes → List Instr
unfolding exchange
program a true args = exchange a true args ++ sleep 2 ∷ remove ∷ []
program a false args = exchange a false args

-- strcpy(mb, s) with `mb` at that offset; a list that grows is a write behind the buffer.
abbrev pub strcpy_at : (mem : Bytes) (off : ℕ) (s : Bytes) → Bytes
strcpy_at mem off s = take off mem ++ ((s ++ 0 ∷ []) ++ drop (off + (length s + 1)) mem)

-- `mb += strlen(mb)`
abbrev pub past : (mem : Bytes) (off : ℕ) → ℕ
past mem off = off + length (c_string (drop off mem))

-- The loop of `SendArgs` over the arguments behind `argv[0]`.
unfoldable pub copy_args : List Bytes → (mem : Bytes) (off : ℕ) → Bytes
copy_args [] mem off = mem
copy_args (s ∷ ss) mem off =
    let mem1 = strcpy_at mem off s in
    let off1 = past mem1 off in
    let mem2 = strcpy_at mem1 off1 (b' ' ∷ []) in copy_args ss mem2 (past mem2 off1)

-- What the two processes share, and the lines that each has shown.
pub record Shared : Type 0 where
  pub a : ℕ
  pub b : ℕ
  pub alive : Bool  -- the semaphore set exists
  pub membuf : Bytes

abbrev pub value_of : Sem → Shared → ℕ
value_of sem_a s = s.a
value_of sem_b s = s.b

abbrev pub set_value : Sem → ℕ → Shared → Shared
set_value sem_a n s = record s { a = n }
set_value sem_b n s = record s { b = n }

-- One call; `none`: it blocks. A semop on a removed set fails, which is not looked at.
unfoldable pub exec : Instr → Shared → Option Shared
unfolding copy_args
exec (down x) s =
    if s.alive
    then (if ltb 0 (value_of x s) then some (set_value x (value_of x s - 1) s) else none)
    else some s
exec (up x) s = some (if s.alive then set_value x (value_of x s + 1) s else s)
exec raise_both s = some (if s.alive then record s { a = s.a + 1; b = s.b + 1 } else s)
exec (fill args) s = some (record s { membuf = copy_args args s.membuf 0 })
exec show s = some s
exec (sleep n) s = some s
exec remove s = some (record s { alive = false })
