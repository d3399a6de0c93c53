-- ===== src/PingPong/Condition/Order.antt =====
-- While each wakeup has its signal, the threads of pingpong1.c show their lines in turn.
use cs507_unix_programming.Prelude.{
  ℕ, ◌+◌, ◌≤◌, ◌<◌, Bool, true, false, some, ◌≡◌, refl, arith, length,
}
use cs507_unix_programming.PingPong.{Player, ping, pong}
use cs507_unix_programming.PingPong.Turns.{
  rounds, turns, turns-length, rounds-ping, rounds-pong, rounds-leaves,
}
use cs507_unix_programming.PingPong.Condition.{
  Pc, top, waits, asleep, awake, signals, signals_last, ended, State, thread, call, thread_calls,
  main_calls, wakes_up, step, Reach, here, later, Signalled,
}

abbrev holds : Pc → ℕ
holds awake = 1
holds signals = 1
holds pc = 0

abbrev shown : Pc → ℕ
shown signals = 1
shown pc = 0

abbrev pending : Bool → ℕ
pending true = 1
pending false = 0

abbrev InRound : ℕ → Pc → ℕ → Type 0
InRound loops top loop = loop ≤ loops
InRound loops signals_last loop = loop ≡ loops
InRound loops ended loop = loop ≡ loops
InRound loops pc loop = loop < loops

record Inv (loops : ℕ) (s : State) : Type 0 where
  one : holds s.ping_thread.pc + holds s.pong_thread.pc + pending s.main_signals ≤ 1
  below : s.pong_thread.loop + holds s.pong_thread.pc ≤ s.ping_thread.loop
  above : s.ping_thread.loop + holds s.ping_thread.pc ≤ s.pong_thread.loop + 1
  first : pending s.main_signals ≡ 1 → s.ping_thread.loop ≡ 0
  ping_in : InRound loops s.ping_thread.pc s.ping_thread.loop
  pong_in : InRound loops s.pong_thread.pc s.pong_thread.loop
  lines :
      rounds s.out
      ≡ turns (
          s.ping_thread.loop + s.pong_thread.loop + shown s.ping_thread.pc + shown s.pong_thread.pc)

call-Inv :
    {loops : ℕ} {t : State} (p : Player) (pc : Pc) (s : State)
    → (thread p s).pc ≡ pc
    → Inv loops s
    → call loops p pc (thread p s).loop s ≡ some t
    → Inv loops t
call-Inv ping top s e v h = ground (arith, rounds-leaves s.out ping)
call-Inv ping waits s e v h = ground arith
call-Inv ping asleep s e v h = cc
call-Inv ping awake s e v h =
    ground (arith, rounds-ping s.out s.ping_thread.loop (s.ping_thread.loop + s.pong_thread.loop))
call-Inv ping signals s e v h = ground arith
call-Inv ping signals_last s e v h = ground arith
call-Inv ping ended s e v h = cc
call-Inv pong top s e v h = ground (arith, rounds-leaves s.out pong)
call-Inv pong waits s e v h = ground arith
call-Inv pong asleep s e v h = cc
call-Inv pong awake s e v h =
    ground (arith, rounds-pong s.out s.pong_thread.loop (s.ping_thread.loop + s.pong_thread.loop))
call-Inv pong signals s e v h = ground arith
call-Inv pong signals_last s e v h = ground arith
call-Inv pong ended s e v h = cc

main-Inv :
    {loops : ℕ} {t : State} (s : State)
    → Inv loops s
    → step loops main_calls s ≡ some t
    → Inv loops t
unfolding step
main-Inv s v h = ground arith

Reach-Inv : {loops : ℕ} {s : State} → Reach Signalled loops s → Inv loops s
unfolding step
Reach-Inv here = record {
  one = omega arith;
  below = omega arith;
  above = omega arith;
  first = λ e. refl;
  ping_in = omega arith;
  pong_in = omega arith;
  lines = refl;
}
Reach-Inv (later (thread_calls p) r a e) = call-Inv p _ _ refl (Reach-Inv r) e
Reach-Inv (later main_calls r a e) = main-Inv _ (Reach-Inv r) e
Reach-Inv (later (wakes_up p) r a e) = absurd a

-- In every state that main and the threads of pingpong1.c reach in any order, while no thread
-- is woken without a signal, the rounds shown are a beginning of ping#0, pong#0, ping#1, pong#1
-- and so on.
pub condition_turns :
    {loops : ℕ} {s : State} → Reach Signalled loops s → rounds s.out ≡ turns (length (rounds s.out))
condition_turns {s} r =
    turns-length
      (s.ping_thread.loop + s.pong_thread.loop + shown s.ping_thread.pc + shown s.pong_thread.pc)
      (Reach-Inv r).lines
