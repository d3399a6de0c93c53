-- ===== src/PingPong/Setting/Order.antt =====
-- pingpong3.c keeps the order of turns.
use cs507_unix_programming.Prelude.{
  ℕ, ◌+◌, ◌*◌, ◌≤◌, ◌<◌, none, some, ◌≡◌, refl, arith, ◌⊎◌, inl, inr, length,
}
use cs507_unix_programming.PingPong.{
  Player, ping, pong, Pc, top, await, work, disable, release, ended, State, thread, sem, start,
  Reach, steps_of,
}
use cs507_unix_programming.PingPong.Turns.{
  Inv, rounds, turns, rounds-ping, rounds-pong, rounds-leaves,
}
use cs507_unix_programming.PingPong.Order.{TakesTurns, both_left, in_turn, steps_bound, goes_on}
use cs507_unix_programming.PingPong.Setting.{call, step}

-- A place that this program has.
abbrev Has : Pc → Type 0
Has disable = ⊥
Has top = Unit
Has await = Unit
Has work = Unit
Has release = Unit
Has ended = Unit

abbrev HasPlaces : State → Type 0
HasPlaces s = Has s.ping_thread.pc × Has s.pong_thread.pc

call-HasPlaces :
    (loops : ℕ) {t : State} (p : Player) (pc : Pc) (s : State)
    → HasPlaces s
    → call loops p pc s ≡ some t
    → HasPlaces t
call-HasPlaces loops ping top s v h = ground arith
call-HasPlaces loops ping await s v h = ground arith
call-HasPlaces loops ping work s v h = ground arith
call-HasPlaces loops ping disable s v h = cc
call-HasPlaces loops ping release s v h = ground arith
call-HasPlaces loops ping ended s v h = cc
call-HasPlaces loops pong top s v h = ground arith
call-HasPlaces loops pong await s v h = ground arith
call-HasPlaces loops pong work s v h = ground arith
call-HasPlaces loops pong disable s v h = cc
call-HasPlaces loops pong release s v h = ground arith
call-HasPlaces loops pong ended s v h = cc

call-Inv :
    {loops : ℕ} {t : State} (p : Player) (pc : Pc) (s : State)
    → (thread p s).pc ≡ pc
    → Inv loops s
    → call loops p pc s ≡ some t
    → Inv loops t
call-Inv ping top s e v h = ground (arith, rounds-leaves s.out ping)
call-Inv ping await s e v h = ground arith
call-Inv ping work s e v h =
    ground (arith, rounds-ping s.out s.ping_thread.loop (s.ping_thread.loop + s.pong_thread.loop))
call-Inv ping disable s e v h = cc
call-Inv ping release s e v h = ground arith
call-Inv ping ended s e v h = cc
call-Inv pong top s e v h = ground (arith, rounds-leaves s.out pong)
call-Inv pong await s e v h = ground arith
call-Inv pong work s e v h =
    ground (arith, rounds-pong s.out s.pong_thread.loop (s.ping_thread.loop + s.pong_thread.loop))
call-Inv pong disable s e v h = cc
call-Inv pong release s e v h = ground arith
call-Inv pong ended s e v h = cc

call-spends :
    {loops : ℕ} {t : State} (p : Player) (pc : Pc) (s : State)
    → (thread p s).pc ≡ pc
    → Inv loops s
    → call loops p pc s ≡ some t
    → both_left loops t < both_left loops s
call-spends ping top s e v h = ground arith
call-spends ping await s e v h = ground arith
call-spends ping work s e v h = ground arith
call-spends ping disable s e v h = cc
call-spends ping release s e v h = ground arith
call-spends ping ended s e v h = cc
call-spends pong top s e v h = ground arith
call-spends pong await s e v h = ground arith
call-spends pong work s e v h = ground arith
call-spends pong disable s e v h = cc
call-spends pong release s e v h = ground arith
call-spends pong ended s e v h = cc

call-blocked :
    (loops : ℕ) (p : Player) (pc : Pc) (s : State)
    → Has pc
    → call loops p pc s ≡ none
    → (pc ≡ ended) ⊎ ((pc ≡ await) × (sem p s ≡ 0))
call-blocked loops p top s v h = cc
call-blocked loops p await s v h = inr (refl, ground arith)
call-blocked loops p work s v h = cc
call-blocked loops p disable s v h = absurd v
call-blocked loops p release s v h = cc
call-blocked loops p ended s v h = inl refl

start-Inv : (loops : ℕ) → Inv loops start
start-Inv loops = record {
  one = omega arith;
  turn = omega arith;
  ping_in = omega arith;
  pong_in = omega arith;
  lines = refl;
}

place : (p : Player) (s : State) → HasPlaces s → Has (thread p s).pc
place ping s v = v.0
place pong s v = v.1

setting-TakesTurns : (loops : ℕ) → TakesTurns loops (step loops)
unfolding step
setting-TakesTurns loops = record {
  Good = λ s. Inv loops s × HasPlaces s;
  begins = (start-Inv loops, (tt, tt));
  keeps = λ p s t v e. (call-Inv p _ s refl v.0 e, call-HasPlaces loops p _ s v.1 e);
  invariant = λ s v. v.0;
  spends = λ p s t v e. call-spends p _ s refl v.0 e;
  blocked = λ p s v e. call-blocked loops p _ s (place p s v.1) e;
}

-- In every state that the threads of pingpong3.c reach, in any order of their calls: the rounds
-- shown are a beginning of ping#0, pong#0, ping#1, pong#1 and so on, at most 10 * loops + 2
-- calls were made, and if neither thread can go on both have ended and every one of the loops
-- rounds of both was shown.
pub setting_turns :
    (loops : ℕ) {s : State} (r : Reach (step loops) start s)
    → (rounds s.out ≡ turns (length (rounds s.out)))
      × (steps_of r ≤ 10 * loops + 2)
      × (((p : Player) × (t : State) × (step loops p s ≡ some t))
          ⊎ ((s.ping_thread.pc ≡ ended)
              × (s.pong_thread.pc ≡ ended)
              × (rounds s.out ≡ turns (loops + loops))))
setting_turns loops r =
    let law = setting-TakesTurns loops in (in_turn law r, steps_bound law r, goes_on law r)
