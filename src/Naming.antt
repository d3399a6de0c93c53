-- ===== src/Naming.antt =====
-- examples/example-thrd/thrdmutex.c: two threads that put names into a list under a mutex, with
-- numbers from a counter that is outside it.
pub mod Numbering
pub mod Listing
pub mod Finished
mod Tests
use cs507_unix_programming.Prelude.{
  ℕ, ◌+◌, List, [], ◌∷◌, Bool, true, false, Option, none, some, ltb, if◌then◌else◌, ◌≡◌,
}

abbrev pub maxcnt : ℕ
maxcnt = 10

-- A name: A or B, true for A, and the number behind it.
abbrev pub Name : Type 0
Name = Bool × ℕ

-- `ctr`, the list, from its tail to its head, with none for an element that has no name yet, and
-- the mutex: none is unlocked, some true locked by procA.
pub record Shared : Type 0 where
  pub ctr : ℕ
  pub list : List (Option Name)
  pub mutex : Option Bool

-- Where a thread stands: at the test of the loop, before rndm, before the two halves of ctr++, with
-- what it has loaded, before the lock, before double_link, before stralloc, before the unlock, each
-- with the number in `buf`, and behind the loop.
pub data Pc : Type 0 where
  tests draws loads : Pc
  stores locks links allocates : (number : ℕ) → Pc
  unlocks ended : Pc

-- stralloc(namelist.tail->name, buf); nothing at a tail that is NULL, which does not occur.
abbrev pub name_tail : Name → List (Option Name) → List (Option Name)
name_tail name [] = []
name_tail name (element ∷ list) = some name ∷ list

-- pthread_mutex_lock.
abbrev pub acquire :
    (who : Bool) → (number : ℕ) → Shared → (mutex : Option Bool) → Option (Shared × Pc)
acquire who number m none = some (record m { mutex = some who }, links number)
acquire who number m (some owner) = none

-- The next step of procA, for true, or of procB; `below_half` is whether rndm() gives less than
-- 0.5. The result is none where the thread waits for the mutex, or has ended.
abbrev pub proc : (who below_half : Bool) → Pc → Shared → Option (Shared × Pc)
proc who below_half tests m = some (m, if ltb m.ctr maxcnt then draws else ended)
proc who below_half draws m = some (m, if below_half then loads else tests)
proc who below_half loads m = some (m, stores m.ctr)
proc who below_half (stores number) m = some (record m { ctr = number + 1 }, locks number)
proc who below_half (locks number) m = acquire who number m m.mutex
proc who below_half (links number) m = some (record m { list = none ∷ m.list }, allocates number)
proc who below_half (allocates number) m =
    some (record m { list = name_tail (who, number) m.list }, unlocks)
proc who below_half unlocks m = some (record m { mutex = none }, tests)
proc who below_half ended m = none

pub record State : Type 0 where
  pub shared : Shared
  pub a : Pc
  pub b : Pc

abbrev pub start : State
start = record { shared = record { ctr = 0; list = []; mutex = none }; a = tests; b = tests }

abbrev pub as_a : State → Option (Shared × Pc) → Option State
as_a s none = none
as_a s (some (m, p)) = some (record { shared = m; a = p; b = s.b })

abbrev pub as_b : State → Option (Shared × Pc) → Option State
as_b s none = none
as_b s (some (m, p)) = some (record { shared = m; a = s.a; b = p })

-- One of the threads makes its next step.
unfoldable pub step : (who below_half : Bool) → State → Option State
step true below_half s = as_a s (proc true below_half s.a s.shared)
step false below_half s = as_b s (proc false below_half s.b s.shared)

pub data Reach : State → Type 0 where
  here : Reach start
  later : {s t : State} (who below_half : Bool) → Reach s → step who below_half s ≡ some t → Reach t
