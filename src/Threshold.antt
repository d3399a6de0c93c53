-- ===== src/Threshold.antt =====
-- examples/example-thrd/thrdcond.c: two threads count, a third waits for a threshold.
pub mod Waiting
pub mod Tests
use cs507_unix_programming.Prelude.{
  ℕ, suc, ◌+◌, ◌-◌, List, [], ◌∷◌, Bool, true, false, Bytes, Option, none, some, if◌then◌else◌,
  ◌==◌, ltb, leb, str_eq, ◌≡◌,
}

abbrev pub tcount : ℕ
tcount = 10

abbrev pub watch_limit : ℕ
watch_limit = 12

-- Where `inc_count` stands; `i` is the round. The two accesses of an increment are two steps, and
-- `running_ithreads` is loaded and stored without the mutex.
pub data IncPc : Type 0 where
  enters : IncPc
  stores_running : (loaded : ℕ) → IncPc
  top locks reads : (i : ℕ) → IncPc
  writes : (i prvcount : ℕ) → IncPc
  tests resets unlocks : (i : ℕ) → IncPc
  returned : IncPc

-- `watch_count`
pub data WatchPc : Type 0 where
  locks tests asleep unlocks returned : WatchPc

-- `main`, from the loop of its joins on; `k` is the thread that it joins.
pub data MainPc : Type 0 where
  joins loads : (k : ℕ) → MainPc
  stores : (k loaded : ℕ) → MainPc
  tests sets locks signals unlocks : (k : ℕ) → MainPc
  ended : MainPc

-- `running` is `running_ithreads + 3`: main takes 1 away three times. `announced`: main has set
-- `count` at least once.
pub record State : Type 0 where
  pub count : ℕ
  pub running : ℕ
  pub locked : Bool
  pub announced : Bool
  pub first : IncPc
  pub second : IncPc
  pub watcher : WatchPc
  pub main_pc : MainPc

abbrev pub start : State
start = record {
  count = 0;
  running = 3;
  locked = false;
  announced = false;
  first = IncPc.enters;
  second = IncPc.enters;
  watcher = WatchPc.locks;
  main_pc = MainPc.joins 0;
}

-- pthread_cond_signal: the only thread that waits is the watcher.
abbrev pub woken : WatchPc → WatchPc
woken WatchPc.asleep = WatchPc.locks
woken pc = pc

abbrev pub wake : State → State
wake s = record s { watcher = woken s.watcher }

abbrev pub lock : State → State → Option State
lock s t = if s.locked then none else some (record t { locked = true })

-- A call of `inc_count`, with what it leaves, put in place by `at`.
abbrev pub inc : (at : IncPc → State → State) → IncPc → State → Option State
inc at IncPc.enters s = some (at (IncPc.stores_running s.running) s)
inc at (IncPc.stores_running r) s = some (at (IncPc.top 0) (record s { running = r + 1 }))
inc at (IncPc.top i) s = some (at (if ltb i tcount then IncPc.locks i else IncPc.returned) s)
inc at (IncPc.locks i) s = lock s (at (IncPc.reads i) s)
inc at (IncPc.reads i) s = some (at (IncPc.writes i s.count) s)
inc at (IncPc.writes i c) s = some (at (IncPc.tests i) (record s { count = c + 1 }))
inc at (IncPc.tests i) s =
    some (if s.count == watch_limit then at (IncPc.resets i) (wake s) else at (IncPc.unlocks i) s)
inc at (IncPc.resets i) s = some (at (IncPc.unlocks i) (record s { count = 0 }))
inc at (IncPc.unlocks i) s = some (at (IncPc.top (i + 1)) (record s { locked = false }))
inc at IncPc.returned s = none

abbrev pub watch : WatchPc → State → Option State
watch WatchPc.locks s = lock s (record s { watcher = WatchPc.tests })
watch WatchPc.tests s = some (
    if leb s.count watch_limit
    then record s { watcher = WatchPc.asleep; locked = false }
    else record s { watcher = WatchPc.unlocks })
watch WatchPc.asleep s = none
watch WatchPc.unlocks s = some (record s { watcher = WatchPc.returned; locked = false })
watch WatchPc.returned s = none

abbrev pub inc_done : IncPc → Bool
inc_done IncPc.returned = true
inc_done pc = false

abbrev pub watch_done : WatchPc → Bool
watch_done WatchPc.returned = true
watch_done pc = false

-- pthread_join(threads[k])
abbrev pub joined : (k : ℕ) → State → Bool
joined k s =
    if k == 0
    then inc_done s.first
    else (if k == 1 then inc_done s.second else watch_done s.watcher)

abbrev pub next_join : (k : ℕ) → MainPc
next_join k = if ltb (k + 1) 3 then MainPc.joins (k + 1) else MainPc.ended

abbrev pub main : MainPc → State → Option State
main (MainPc.joins k) s = if joined k s then some (record s { main_pc = MainPc.loads k }) else none
main (MainPc.loads k) s = some (record s { main_pc = MainPc.stores k s.running })
main (MainPc.stores k r) s = some (record s { running = r - 1; main_pc = MainPc.tests k })
main (MainPc.tests k) s =
    some (record s { main_pc = if leb s.running 3 then MainPc.sets k else next_join k })
main (MainPc.sets k) s =
    some (record s { count = watch_limit + 1; announced = true; main_pc = MainPc.locks k })
main (MainPc.locks k) s = lock s (record s { main_pc = MainPc.signals k })
main (MainPc.signals k) s = some (record (wake s) { main_pc = MainPc.unlocks k })
main (MainPc.unlocks k) s = some (record s { locked = false; main_pc = next_join k })
main MainPc.ended s = none

-- A call of one of the threads, or a wakeup without a signal.
pub data Event : Type 0 where
  first_calls second_calls watcher_calls main_calls wakes_up : Event

unfoldable pub step : Event → State → Option State
step first_calls s = inc (λ pc t. record t { first = pc }) s.first s
step second_calls s = inc (λ pc t. record t { second = pc }) s.second s
step watcher_calls s = watch s.watcher s
step main_calls s = main s.main_pc s
step wakes_up s = some (wake s)

pub data Reach : State → Type 0 where
  here : Reach start
  later : {s t : State} (e : Event) → Reach s → step e s ≡ some t → Reach t

-- The scheduling that the arguments of the program ask for.
pub data Policy : Type 0 where
  fifo round_robin other_policy : Policy

-- `prioritized`: the counting threads with the lowest priority, the watcher with the highest.
pub data Setup : Type 0 where
  usage : Setup
  scheduled : Policy → (prioritized : Bool) → Setup

abbrev pub more : List Bytes → Bool
more [] = false
more (a ∷ rest) = true

unfoldable pub setup : (arguments : List Bytes) → Setup
setup [] = usage
setup (a ∷ rest) =
    if str_eq a (b'F' ∷ b'F' ∷ [])
    then scheduled fifo (more rest)
    else (if str_eq a (b'R' ∷ b'R' ∷ [])
        then scheduled round_robin (more rest)
        else scheduled other_policy false)
