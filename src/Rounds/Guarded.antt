-- ===== src/Rounds/Guarded.antt =====
-- thrd_unnamedsem.c: each thread prints its name four times, within a semaphore.
use cs507_unix_programming.Prelude.{
  ℕ, ◌+◌, ◌-◌, ◌*◌, ◌≤◌, ◌<◌, List, [], ◌∷◌, Bool, true, false, ltb, if◌then◌else◌, Option, none,
  some, ◌==◌, ◌≡◌, refl, arith,
}

-- Where a thread stands: before the test of the for loop, before sem_wait, printf and sem_post, each
-- with its `i`, and at its end. The loop that adds up x changes nothing that is shared.
pub data Pc : Type 0 where
  tests waits prints posts : (i : ℕ) → Pc
  ended : Pc

-- The value of the semaphore, what was printed, the last line first, with true for procA, and the
-- threads.
pub record State : Type 0 where
  pub unnsem : ℕ
  pub printed : List Bool
  pub a : Pc
  pub b : Pc

-- Behind sem_init.
abbrev pub start : State
start = record { unnsem = 1; printed = []; a = tests 0; b = tests 0 }

-- The semaphore, the lines and the place of the thread after its next step; none where it waits in
-- sem_wait, or has ended.
abbrev pub proc :
    (who : Bool) → Pc → (unnsem : ℕ) → (printed : List Bool) → Option (ℕ × List Bool × Pc)
proc who (tests i) sem out = some (sem, out, if ltb i 4 then waits i else ended)
proc who (waits i) sem out = if sem == 0 then none else some (sem - 1, out, prints i)
proc who (prints i) sem out = some (sem, who ∷ out, posts i)
proc who (posts i) sem out = some (sem + 1, out, tests (i + 1))
proc who ended sem out = none

abbrev pub as_a : State → Option (ℕ × List Bool × Pc) → Option State
as_a s none = none
as_a s (some (sem, out, p)) = some (record { unnsem = sem; printed = out; a = p; b = s.b })

abbrev pub as_b : State → Option (ℕ × List Bool × Pc) → Option State
as_b s none = none
as_b s (some (sem, out, p)) = some (record { unnsem = sem; printed = out; a = s.a; b = p })

unfoldable pub step : (who : Bool) → State → Option State
step true s = as_a s (proc true s.a s.unnsem s.printed)
step false s = as_b s (proc false s.b s.unnsem s.printed)

pub data Reach : State → Type 0 where
  here : Reach start
  later : {s t : State} (who : Bool) → Reach s → step who s ≡ some t → Reach t

-- Whether a thread is between sem_wait and sem_post.
abbrev pub inside : Pc → ℕ
inside (prints i) = 1
inside (posts i) = 1
inside p = 0

-- How many lines a thread at a place has printed.
abbrev pub lines : Pc → ℕ
lines (tests i) = i
lines (waits i) = i
lines (prints i) = i
lines (posts i) = i + 1
lines ended = 4

abbrev Within : Pc → Type 0
Within (tests i) = i ≤ 4
Within (waits i) = i < 4
Within (prints i) = i < 4
Within (posts i) = i < 4
Within ended = Unit

abbrev pub count : (who : Bool) → List Bool → ℕ
count who [] = 0
count true (b ∷ bs) = (if b then 1 else 0) + count true bs
count false (b ∷ bs) = (if b then 0 else 1) + count false bs

record Inv (s : State) : Type 0 where
  free : s.unnsem + inside s.a + inside s.b ≡ 1
  lines_a : count true s.printed ≡ lines s.a
  lines_b : count false s.printed ≡ lines s.b
  within_a : Within s.a
  within_b : Within s.b

start-Inv : Inv start
start-Inv = record {
  free = refl;
  lines_a = refl;
  lines_b = refl;
  within_a = omega arith;
  within_b = omega arith;
}

step-Inv-a :
    (p : Pc) (s : State) {t : State}
    → s.a ≡ p
    → Inv s
    → as_a s (proc true p s.unnsem s.printed) ≡ some t
    → Inv t
step-Inv-a (tests i) s k v h = ground (arith, v, h, k)
step-Inv-a (waits i) s k v h = ground (arith, v, h, k)
step-Inv-a (prints i) s k v h = ground (arith, v, h, k)
step-Inv-a (posts i) s k v h = ground (arith, v, h, k)
step-Inv-a ended s k v h = cc

step-Inv-b :
    (p : Pc) (s : State) {t : State}
    → s.b ≡ p
    → Inv s
    → as_b s (proc false p s.unnsem s.printed) ≡ some t
    → Inv t
step-Inv-b (tests i) s k v h = ground (arith, v, h, k)
step-Inv-b (waits i) s k v h = ground (arith, v, h, k)
step-Inv-b (prints i) s k v h = ground (arith, v, h, k)
step-Inv-b (posts i) s k v h = ground (arith, v, h, k)
step-Inv-b ended s k v h = cc

run-Inv : {s : State} → Reach s → Inv s
unfolding step
run-Inv here = start-Inv
run-Inv (later {s} true r h) = step-Inv-a s.a s refl (run-Inv r) h
run-Inv (later {s} false r h) = step-Inv-b s.b s refl (run-Inv r) h

stuck_lem :
    (s : State) → Inv s → step true s ≡ none → step false s ≡ none → (s.a ≡ ended) × (s.b ≡ ended)
unfolding step
stuck_lem s v h k = ground (arith, v, h, k)

-- In every state that the threads of thrd_unnamedsem.c reach: at most one is between sem_wait and
-- sem_post, and each has printed as many lines as it has gone through rounds.
pub one_inside :
    {s : State}
    → Reach s
    → (inside s.a + inside s.b ≤ 1)
      × (count true s.printed ≡ lines s.a)
      × (count false s.printed ≡ lines s.b)
one_inside r = let v = run-Inv r in (omega (arith, v.free), v.lines_a, v.lines_b)

-- In every state that the threads of thrd_unnamedsem.c reach and in which neither can go on,
-- each has printed its four lines and the semaphore has the value 1.
pub stuck_ended :
    {s : State}
    → Reach s
    → step true s ≡ none
    → step false s ≡ none
    → (count true s.printed ≡ 4) × (count false s.printed ≡ 4) × (s.unnsem ≡ 1)
stuck_ended {s} r h k = let v = run-Inv r in let e = stuck_lem s v h k in ground (arith, v, e)

-- The steps that a thread has left.
abbrev pub left : Pc → ℕ
left (tests i) = 17 - i * 4
left (waits i) = 16 - i * 4
left (prints i) = 15 - i * 4
left (posts i) = 14 - i * 4
left ended = 0

step-left-a :
    (p : Pc) (s : State) {t : State}
    → s.a ≡ p
    → Inv s
    → as_a s (proc true p s.unnsem s.printed) ≡ some t
    → left t.a + left t.b < left s.a + left s.b
step-left-a (tests i) s k v h = ground (arith, v, h, k)
step-left-a (waits i) s k v h = ground (arith, v, h, k)
step-left-a (prints i) s k v h = ground (arith, v, h, k)
step-left-a (posts i) s k v h = ground (arith, v, h, k)
step-left-a ended s k v h = cc

step-left-b :
    (p : Pc) (s : State) {t : State}
    → s.b ≡ p
    → Inv s
    → as_b s (proc false p s.unnsem s.printed) ≡ some t
    → left t.a + left t.b < left s.a + left s.b
step-left-b (tests i) s k v h = ground (arith, v, h, k)
step-left-b (waits i) s k v h = ground (arith, v, h, k)
step-left-b (prints i) s k v h = ground (arith, v, h, k)
step-left-b (posts i) s k v h = ground (arith, v, h, k)
step-left-b ended s k v h = cc

-- Every step of a thread of thrd_unnamedsem.c, from a state that is reached, lowers the number
-- of steps that the threads have left.
pub step-left :
    {s t : State} (who : Bool)
    → Reach s
    → step who s ≡ some t
    → left t.a + left t.b < left s.a + left s.b
unfolding step
step-left {s} true r h = step-left-a s.a s refl (run-Inv r) h
step-left {s} false r h = step-left-b s.b s refl (run-Inv r) h
