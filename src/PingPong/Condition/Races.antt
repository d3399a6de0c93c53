-- ===== src/PingPong/Condition/Races.antt =====
-- What goes wrong in pingpong1.c where the order of the calls is not the one intended.
use cs507_unix_programming.Prelude.{
  ℕ, ◌<◌, Bool, true, false, none, some, ◌≡◌, refl, List, [], ◌∷◌, arith,
}
use cs507_unix_programming.PingPong.{Player, ping, pong, Line, round}
use cs507_unix_programming.PingPong.Condition.{
  Pc, top, waits, asleep, signals, State, thread_calls, main_calls, wakes_up, step, Reach, here,
  later, Signalled, Any,
}

-- In their first round.
abbrev early : Bool → (ping_pc pong_pc : Pc) → List Line → State
early m a b out = record {
  main_signals = m;
  ping_thread = record { pc = a; loop = 0 };
  pong_thread = record { pc = b; loop = 0 };
  out = out;
}

ping_enters :
    {loops : ℕ} (m : Bool) (b : Pc)
    → 0 < loops
    → step loops (thread_calls ping) (early m top b []) ≡ some (early m waits b [])
unfolding step
ping_enters m b h = ground arith

pong_enters :
    {loops : ℕ} (m : Bool) (a : Pc)
    → 0 < loops
    → step loops (thread_calls pong) (early m a top []) ≡ some (early m a waits [])
unfolding step
pong_enters m a h = ground arith

abbrev both_asleep : State
both_asleep = early false asleep asleep []

both_asleep-stuck : (loops : ℕ) (p : Player) → step loops (thread_calls p) both_asleep ≡ none
unfolding step
both_asleep-stuck loops ping = refl
both_asleep-stuck loops pong = refl

both_asleep-main : (loops : ℕ) → step loops main_calls both_asleep ≡ none
unfolding step
both_asleep-main loops = refl

Reach-both_asleep : {loops : ℕ} → 0 < loops → Reach Signalled loops both_asleep
unfolding step
Reach-both_asleep h =
    later (thread_calls pong)
      (later (thread_calls pong)
        (later (thread_calls ping)
          (later (thread_calls ping) (later {t = early false top top []} main_calls here tt refl) tt
            (ping_enters false top h))
          tt refl)
        tt (pong_enters false asleep h))
      tt refl

-- For every positive number of loops, main and the threads of pingpong1.c reach a state in
-- which nothing was shown, both threads wait on their condition variables, and neither they nor
-- main can make a call.
pub signal-lost :
    (loops : ℕ)
    → 0 < loops
    → (s : State) × Reach Signalled loops s
      × ((p : Player) → step loops (thread_calls p) s ≡ none)
      × (step loops main_calls s ≡ none)
      × (s.ping_thread.pc ≡ asleep)
      × (s.pong_thread.pc ≡ asleep)
      × (s.out ≡ [])
signal-lost loops h = (
  both_asleep,
  Reach-both_asleep h,
  both_asleep-stuck loops,
  both_asleep-main loops,
  refl,
  refl,
  refl,
)

-- A wakeup without a signal lets pong show its line before ping has shown one.
pong-first : (loops : ℕ) → 0 < loops → (s : State) × Reach Any loops s × (s.out ≡ round pong 0 ∷ [])
unfolding step
pong-first loops h = (
  early true top signals (round pong 0 ∷ []),
  later (thread_calls pong)
      (later (wakes_up pong)
        (later (thread_calls pong) (later (thread_calls pong) here tt (pong_enters true top h)) tt
          refl)
        tt refl)
      tt refl,
  refl,
)
