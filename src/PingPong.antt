-- ===== src/PingPong.antt =====
-- examples/example-thrd/pingpong1.c, pingpong2.c, pingpong3.c: two threads that take turns. Here is
-- what the two programs with semaphores share; pingpong1.c, with condition variables, is in
-- Condition.
pub mod Turns
pub mod Posting
pub mod Setting
pub mod Condition
pub mod Order
pub mod Tests
use cs507_unix_programming.Prelude.{ℕ, suc, ◌+◌, List, [], ◌∷◌, ◌++◌, Option, none, some, ◌≡◌}

pub data Player : Type 0 where
  ping pong : Player

abbrev pub other : Player → Player
other ping = pong
other pong = ping

-- A line of output: "ping#%2d: x=..." of a round, and "ping now trying to exit". The number x is
-- the same sum in each line.
pub data Line : Type 0 where
  round : Player → ℕ → Line
  leaves : Player → Line

-- Before which call a thread stands: the test of its loop, the wait on its semaphore, printf, in
-- pingpong2.c the sem_init of its semaphore, and the call that enables the other thread.
pub data Pc : Type 0 where
  top await work disable release ended : Pc

pub record Thread : Type 0 where
  pub pc : Pc
  pub loop : ℕ

-- The values of the two semaphores, the two threads, and the lines so far.
pub record State : Type 0 where
  pub ping_sem : ℕ
  pub pong_sem : ℕ
  pub ping_thread : Thread
  pub pong_thread : Thread
  pub out : List Line

abbrev pub sem : Player → State → ℕ
sem ping s = s.ping_sem
sem pong s = s.pong_sem

abbrev pub set_sem : Player → ℕ → State → State
set_sem ping n s = record s { ping_sem = n }
set_sem pong n s = record s { pong_sem = n }

abbrev pub thread : Player → State → Thread
thread ping s = s.ping_thread
thread pong s = s.pong_thread

abbrev pub set_thread : Player → Thread → State → State
set_thread ping t s = record s { ping_thread = t }
set_thread pong t s = record s { pong_thread = t }

abbrev pub go : Player → Pc → State → State
go p pc s = set_thread p (record { pc = pc; loop = (thread p s).loop }) s

abbrev pub next_loop : Player → State → State
next_loop p s = set_thread p (record { pc = top; loop = (thread p s).loop + 1 }) s

abbrev pub print : Line → State → State
print l s = record s { out = s.out ++ l ∷ [] }

-- Both threads made, ping enabled and pong blocked.
abbrev pub start : State
start = record {
  ping_sem = 1;
  pong_sem = 0;
  ping_thread = record { pc = top; loop = 0 };
  pong_thread = record { pc = top; loop = 0 };
  out = [];
}

-- The states that a program reaches by single calls of its threads, in any order. `step p s` is
-- `none` where thread p blocks or has ended.
pub data Reach (step : Player → State → Option State) (s : State) : State → Type 0 where
  here : Reach step s s
  later : {t u : State} → Reach step s t → (p : Player) → step p t ≡ some u → Reach step s u

abbrev pub steps_of : {step : Player → State → Option State} {s t : State} → Reach step s t → ℕ
steps_of here = 0
steps_of (later r p e) = suc (steps_of r)
