-- ===== src/Rounds/Waiting.antt =====
-- thrd2.c: each thread counts, and waits in a loop as long as it is ahead.
use cs507_unix_programming.Prelude.{
  ℕ, ◌+◌, ◌-◌, ◌*◌, ◌≤◌, ◌<◌, Bool, true, false, ltb, if◌then◌else◌, ◌≡◌, ◌≢◌, refl, ◌⊎◌, inl, inr,
  arith,
}

-- Where a thread stands: before the test of the for loop with its `i`, at the test of the while
-- loop, and at its end.
pub data Pc : Type 0 where
  rounds waits : (i : ℕ) → Pc
  ended : Pc

-- `resA` and `resB`, and the two threads.
pub record State : Type 0 where
  pub res_a : ℕ
  pub res_b : ℕ
  pub a : Pc
  pub b : Pc

abbrev pub start : State
start = record { res_a = 0; res_b = 0; a = rounds 0; b = rounds 0 }

-- The next step of a thread with its own count and that of the other: what both become.
abbrev pub proc : Pc → (own other : ℕ) → ℕ × Pc
proc (rounds i) own other = if ltb i 4 then (own + 1, waits i) else (own, ended)
proc (waits i) own other = if ltb other own then (own, waits i) else (own, rounds (i + 1))
proc ended own other = (own, ended)

unfoldable pub step : (first : Bool) → State → State
step true s = let r = proc s.a s.res_a s.res_b in record s { res_a = r.0; a = r.1 }
step false s = let r = proc s.b s.res_b s.res_a in record s { res_b = r.0; b = r.1 }

pub data Reach : State → Type 0 where
  here : Reach start
  later : {s : State} (first : Bool) → Reach s → Reach (step first s)

-- The count of a thread at a place.
abbrev pub counted : Pc → ℕ
counted (rounds i) = i
counted (waits i) = i + 1
counted ended = 4

abbrev Within : Pc → Type 0
Within (rounds i) = i ≤ 4
Within (waits i) = i < 4
Within ended = Unit

-- A thread in the for loop is not ahead of the other, and one at its end neither.
abbrev Behind : Pc → (own other : ℕ) → Type 0
Behind (rounds i) own other = own ≤ other
Behind (waits i) own other = own ≤ other + 1
Behind ended own other = own ≤ other

record Inv (s : State) : Type 0 where
  count_a : s.res_a ≡ counted s.a
  count_b : s.res_b ≡ counted s.b
  within_a : Within s.a
  within_b : Within s.b
  behind_a : Behind s.a s.res_a s.res_b
  behind_b : Behind s.b s.res_b s.res_a

start-Inv : Inv start
start-Inv = record {
  count_a = refl;
  count_b = refl;
  within_a = omega arith;
  within_b = omega arith;
  behind_a = omega arith;
  behind_b = omega arith;
}

step-Inv : (first : Bool) (s : State) → Inv s → Inv (step first s)
unfolding step
step-Inv true s v = ground (arith, v)
step-Inv false s v = ground (arith, v)

run-Inv : {s : State} → Reach s → Inv s
run-Inv here = start-Inv
run-Inv (later {s} first r) = step-Inv first s (run-Inv r)

-- A thread turns in its while loop.
abbrev pub Spins : Pc → (own other : ℕ) → Type 0
Spins (waits i) own other = other < own
Spins p own other = ⊥

not_both : (s : State) → Inv s → Spins s.a s.res_a s.res_b → Spins s.b s.res_b s.res_a → ⊥
not_both s v h k = ground (arith, v, h, k)

-- In every state that the threads of thrd2.c reach: the counts differ by at most one and are at
-- most four, and the threads never both turn in their while loops.
pub abreast :
    {s : State}
    → Reach s
    → (s.res_a ≤ s.res_b + 1)
      × (s.res_b ≤ s.res_a + 1)
      × (s.res_a ≤ 4)
      × (s.res_b ≤ 4)
      × (¬ (Spins s.a s.res_a s.res_b × Spins s.b s.res_b s.res_a))
abreast {s} r =
    let v = run-Inv r in
    (
      ground (arith, v),
      ground (arith, v),
      ground (arith, v),
      ground (arith, v),
      λ h. not_both s v h.0 h.1,
    )

-- The steps that a thread has left at most, without those that turn in the while loop.
abbrev pub left : Pc → ℕ
left (rounds i) = 9 - i * 2
left (waits i) = 8 - i * 2
left ended = 0

abbrev pub both_left : State → ℕ
both_left s = left s.a + left s.b

progress_lem :
    (s : State)
    → Inv s
    → (s.a ≢ ended) ⊎ (s.b ≢ ended)
    → (both_left (step true s) < both_left s) ⊎ (both_left (step false s) < both_left s)
unfolding step
progress_lem s v h = grind (arith, v, h)

step_lem :
    (first : Bool) (s : State)
    → Inv s
    → (step first s ≡ s) ⊎ (both_left (step first s) < both_left s)
unfolding step
step_lem true s v = grind (arith, v)
step_lem false s v = grind (arith, v)

is_ended : (p : Pc) → (p ≡ ended) ⊎ (p ≢ ended)
is_ended (rounds i) = inr (λ h. cc)
is_ended (waits i) = inr (λ h. cc)
is_ended ended = inl refl

over_or_on :
    (s : State)
    → Inv s
    → ((s.a ≡ ended) × (s.b ≡ ended))
      ⊎ ((both_left (step true s) < both_left s) ⊎ (both_left (step false s) < both_left s))
over_or_on s v = elim (is_ended s.a) [
  | inr h ↦ inr (progress_lem s v (inl h))
  | inl h ↦ elim (is_ended s.b) [ inr k ↦ inr (progress_lem s v (inr k)) | inl k ↦ inl (h, k) ]
]

-- In every state that the threads of thrd2.c reach: a step of either leaves the state as it is
-- or brings the ends nearer, by a measure, and unless both have ended a step of one of them
-- does bring them nearer.
pub goes_on :
    {s : State} (first : Bool)
    → Reach s
    → ((step first s ≡ s) ⊎ (both_left (step first s) < both_left s))
      × (((s.a ≡ ended) × (s.b ≡ ended))
          ⊎ ((both_left (step true s) < both_left s) ⊎ (both_left (step false s) < both_left s)))
goes_on {s} first r = (step_lem first s (run-Inv r), over_or_on s (run-Inv r))
