-- ===== src/PingPong/Order.antt =====
-- The threads take turns to the end, whatever the order of their calls: what the two programs have
-- to keep for that, and that it is enough.
use cs507_unix_programming.Prelude.{
  Option-cases, ℕ, ◌+◌, ◌-◌, ◌*◌, ◌≤◌, ◌<◌, Option, none, some, ◌≡◌, arith, ◌⊎◌, inl, inr, length,
}
use cs507_unix_programming.PingPong.{
  Player, ping, pong, Pc, top, await, work, disable, release, ended, State, thread, sem, start,
  Reach, here, later, steps_of,
}
use cs507_unix_programming.PingPong.Turns.{Inv, rounds, turns, turns_shown, turns-length}

-- The calls that a thread has still to make, at most.
abbrev pub calls_left : ℕ → Pc → ℕ → ℕ
calls_left loops top loop = 5 * (loops - loop) + 1
calls_left loops await loop = 5 * (loops - loop)
calls_left loops work loop = 5 * (loops - loop) - 1
calls_left loops disable loop = 5 * (loops - loop) - 2
calls_left loops release loop = 5 * (loops - loop) - 3
calls_left loops ended loop = 0

abbrev pub both_left : ℕ → State → ℕ
both_left loops s =
    calls_left loops s.ping_thread.pc s.ping_thread.loop
    + calls_left loops s.pong_thread.pc s.pong_thread.loop

pub record TakesTurns (loops : ℕ) (step : Player → State → Option State) : Type 1 where
  pub Good : State → Type 0
  pub begins : Good start
  pub keeps : (p : Player) (s t : State) → Good s → step p s ≡ some t → Good t
  pub invariant : (s : State) → Good s → Inv loops s
  pub spends :
      (p : Player) (s t : State)
      → Good s
      → step p s ≡ some t
      → both_left loops t < both_left loops s
  pub blocked :
      (p : Player) (s : State)
      → Good s
      → step p s ≡ none
      → ((thread p s).pc ≡ ended) ⊎ (((thread p s).pc ≡ await) × (sem p s ≡ 0))

-- With neither thread able to go on, both have ended.
ended_both :
    {loops : ℕ} {s : State}
    → Inv loops s
    → (s.ping_thread.pc ≡ ended) ⊎ ((s.ping_thread.pc ≡ await) × (s.ping_sem ≡ 0))
    → (s.pong_thread.pc ≡ ended) ⊎ ((s.pong_thread.pc ≡ await) × (s.pong_sem ≡ 0))
    → (s.ping_thread.pc ≡ ended)
      × (s.pong_thread.pc ≡ ended)
      × (rounds s.out ≡ turns (loops + loops))
ended_both v (inl e) (inl f) = (e, f, ground (arith, v.lines))
ended_both v (inl e) (inr f) = absurd (ground arith)
ended_both v (inr e) (inl f) = absurd (ground arith)
ended_both v (inr e) (inr f) = absurd (ground arith)

module _ {loops : ℕ} {step : Player → State → Option State} (law : TakesTurns loops step) where
  pub Reach-Good : {s : State} → Reach step start s → law.Good s
  Reach-Good here = law.begins
  Reach-Good (later r p e) = law.keeps p _ _ (Reach-Good r) e

  pub in_turn : {s : State} → Reach step start s → rounds s.out ≡ turns (length (rounds s.out))
  in_turn {s} r = turns-length (turns_shown s) (law.invariant s (Reach-Good r)).lines

  steps-le : {s : State} (r : Reach step start s) → steps_of r + both_left loops s ≤ 10 * loops + 2
  steps-le here = omega arith
  steps-le (later r p e) = omega (arith, steps-le r, law.spends p _ _ (Reach-Good r) e)

  pub steps_bound : {s : State} (r : Reach step start s) → steps_of r ≤ 10 * loops + 2
  steps_bound r = omega (arith, steps-le r)

  finished :
      {s : State}
      → Reach step start s
      → step ping s ≡ none
      → step pong s ≡ none
      → (s.ping_thread.pc ≡ ended)
        × (s.pong_thread.pc ≡ ended)
        × (rounds s.out ≡ turns (loops + loops))
  finished {s} r e f =
      ended_both (law.invariant s (Reach-Good r)) (law.blocked ping s (Reach-Good r) e)
        (law.blocked pong s (Reach-Good r) f)

  pub goes_on :
      {s : State}
      → Reach step start s
      → ((p : Player) × (t : State) × (step p s ≡ some t))
        ⊎ ((s.ping_thread.pc ≡ ended)
            × (s.pong_thread.pc ≡ ended)
            × (rounds s.out ≡ turns (loops + loops)))
  goes_on {s} r = elim (Option-cases (step ping s)) [
    | inr (t, e) ↦ inl (ping, t, e)
    | inl e ↦ elim (Option-cases (step pong s)) [
      | inr (t, f) ↦ inl (pong, t, f)
      | inl f ↦ inr (finished r e f)
    ]
  ]
