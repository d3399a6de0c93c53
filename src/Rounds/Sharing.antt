-- ===== src/Rounds/Sharing.antt =====
-- hw11/hw11.c: two threads take a number each from `r3`, under a mutex, and count to four.
pub mod Keeping
use cs507_unix_programming.Prelude.{
  ℕ, zero, suc, ◌+◌, ◌-◌, ◌*◌, ◌≤◌, ◌<◌, Bool, true, false, not, ltb, leb, if◌then◌else◌, Option,
  none, some, ◌==◌, ◌≡◌, ◌≢◌, refl, ◌⊎◌, inl, inr, arith,
}

-- Where a thread stands: before the lock, at the test of r3, before r3--, in its loop with x and i,
-- before the unlock, and at its end.
pub data Pc : Type 0 where
  locks takes : Pc
  lowers unlocks ended : (x : ℕ) → Pc
  loops : (x i : ℕ) → Pc

-- `r1`, `r2` and `r3`; whether the mutex is locked; do_one_thing is `one`, do_another_thing is
-- `another`.
pub record State : Type 0 where
  pub r1 : ℕ
  pub r2 : ℕ
  pub r3 : ℕ
  pub locked : Bool
  pub one : Pc
  pub another : Pc

-- `main` up to the joins, with what atoi gives.
abbrev pub start : (r3 : ℕ) → State
start r3 = record { r1 = 0; r2 = 0; r3 = r3; locked = false; one = locks; another = locks }

-- A round of the loop: x is increased 10000 times by i.
abbrev pub round : (x i : ℕ) → ℕ
round x i = x + 10000 * i

-- The next step of do_one_thing, which keeps the lock to its end.
abbrev pub do_one_thing : State → Pc → Option State
do_one_thing s locks = if s.locked then none else some (record s { locked = true; one = takes })
do_one_thing s takes = some (record s { one = if ltb 0 s.r3 then lowers s.r3 else loops 1 0 })
do_one_thing s (lowers x) = some (record s { r3 = s.r3 - 1; one = loops x 0 })
do_one_thing s (loops x i) =
    if ltb i 4
    then some (record s { r1 = s.r1 + 1; one = loops (round x i) (i + 1) })
    else some (record s { one = unlocks x })
do_one_thing s (unlocks x) = some (record s { locked = false; one = ended x })
do_one_thing s (ended x) = none

-- The next step of do_another_thing, which unlocks before its loop.
abbrev pub do_another_thing : State → Pc → Option State
do_another_thing s locks =
    if s.locked then none else some (record s { locked = true; another = takes })
do_another_thing s takes =
    some (record s { another = if ltb 0 s.r3 then lowers s.r3 else unlocks 1 })
do_another_thing s (lowers x) = some (record s { r3 = s.r3 - 1; another = unlocks x })
do_another_thing s (unlocks x) = some (record s { locked = false; another = loops x 0 })
do_another_thing s (loops x i) =
    if ltb i 4
    then some (record s { r2 = s.r2 + 1; another = loops (round x i) (i + 1) })
    else some (record s { another = ended x })
do_another_thing s (ended x) = none

unfoldable pub step : (first : Bool) → State → Option State
step true s = do_one_thing s s.one
step false s = do_another_thing s s.another

pub data Reach (r3 : ℕ) : State → Type 0 where
  here : Reach r3 (start r3)
  later : {s t : State} (first : Bool) → Reach r3 s → step first s ≡ some t → Reach r3 t

-- do_wrap_up, behind the joins: the total that is shown.
abbrev pub do_wrap_up : (one_times another_times : ℕ) → ℕ
do_wrap_up one_times another_times = one_times + another_times
