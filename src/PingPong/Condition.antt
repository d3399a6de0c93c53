-- ===== src/PingPong/Condition.antt =====
-- pingpong1.c: condition variables. The two mutexes are each taken by one thread only, so that a
-- lock never blocks. Priorities are taken as granted, and they decide nothing: the threads run in
-- any order, as they may where there is more than one processor.
pub mod Order
pub mod Races
use cs507_unix_programming.Prelude.{
  ℕ, ◌+◌, List, [], ◌∷◌, ◌++◌, Bool, true, false, Option, none, some, if◌then◌else◌, ltb, ◌≡◌,
}
use cs507_unix_programming.PingPong.{Player, ping, pong, other, Line, round, leaves}

-- Where a thread stands: at the test of its loop, before pthread_cond_wait, inside of it, behind
-- it, before the signal of the loop, before the signal behind the loop.
pub data Pc : Type 0 where
  top waits asleep awake signals signals_last ended : Pc

pub record Thread : Type 0 where
  pub pc : Pc
  pub loop : ℕ

pub record State : Type 0 where
  pub main_signals : Bool  -- main has still to signal
  pub ping_thread : Thread
  pub pong_thread : Thread
  pub out : List Line

abbrev pub thread : Player → State → Thread
thread ping s = s.ping_thread
thread pong s = s.pong_thread

abbrev pub go : Player → Pc → (loop : ℕ) → State → State
go ping pc loop s = record s { ping_thread = record { pc = pc; loop = loop } }
go pong pc loop s = record s { pong_thread = record { pc = pc; loop = loop } }

abbrev pub woken : Pc → Pc
woken asleep = awake
woken pc = pc

-- pthread_cond_signal on the variable of thread p: without a waiting thread it is lost.
abbrev pub wake : Player → State → State
wake p s = go p (woken (thread p s).pc) (thread p s).loop s

abbrev pub print : Line → State → State
print l s = record s { out = s.out ++ l ∷ [] }

-- A call of thread p, standing at that place of that round.
abbrev pub call : (loops : ℕ) → Player → Pc → (loop : ℕ) → State → Option State
call loops p top loop s =
    some (if ltb loop loops then go p waits loop s else go p signals_last loop (print (leaves p) s))
call loops p waits loop s = some (go p asleep loop s)
call loops p asleep loop s = none
call loops p awake loop s = some (go p signals loop (print (round p loop) s))
call loops p signals loop s = some (go p top (loop + 1) (wake (other p) s))
call loops p signals_last loop s = some (go p ended loop (wake (other p) s))
call loops p ended loop s = none

-- What happens next: a call of a thread, the signal of main, or a wakeup that no signal caused, as
-- pthread_cond_wait(3) may have.
pub data Event : Type 0 where
  thread_calls : Player → Event
  main_calls : Event
  wakes_up : Player → Event

unfoldable pub step : (loops : ℕ) → Event → State → Option State
step loops (thread_calls p) s = call loops p (thread p s).pc (thread p s).loop s
step loops main_calls s =
    if s.main_signals then some (wake ping (record s { main_signals = false })) else none
step loops (wakes_up p) s = some (wake p s)

abbrev pub start : State
start = record {
  main_signals = true;
  ping_thread = record { pc = top; loop = 0 };
  pong_thread = record { pc = top; loop = 0 };
  out = [];
}

-- The runs with the events that are allowed.
pub data Reach (allowed : Event → Type 0) (loops : ℕ) : State → Type 0 where
  here : Reach allowed loops start
  later :
      {s t : State} (e : Event)
      → Reach allowed loops s
      → allowed e
      → step loops e s ≡ some t
      → Reach allowed loops t

-- No wakeup without a signal.
abbrev pub Signalled : Event → Type 0
Signalled (wakes_up p) = ⊥
Signalled (thread_calls p) = Unit
Signalled main_calls = Unit

abbrev pub Any : Event → Type 0
Any e = Unit
