-- ===== src/Signals/Family.antt =====
-- SOLNS/HW07/hw7.c and SOLNS/HW07/hw7c1.c: the parent, and the child that records signals.
use cs507_unix_programming.Prelude.{
  ℕ, List, [], ◌∷◌, ◌++◌, Bool, Option, none, some, if◌then◌else◌, ◌==◌, ◌&&◌, get_or, map,
}
use cs507_unix_programming.Signals.Log.{Log, sighandler, recorded, reset, empty_log, handlers}

abbrev pub sigusr2 : ℕ
sigusr2 = 12

-- What fork(2) returns.
pub data Fork : Type 0 where
  failed child : Fork
  parent : (pid : ℕ) → Fork

-- What the calls of hw7.c answer.
pub record Host : Type 0 where
  pub has_cwd : Bool
  pub runs_hw7c1 : Bool  -- access(child1exe,X_OK)
  pub runs_hw7c2 : Bool
  pub fork1 : Fork
  pub fork2 : Fork
  pub execs1 : Bool
  pub execs2 : Bool

pub data Action : Type 0 where
  exec_hw7c1 : Action
  exec_hw7c2 : (argv1 : ℕ) → Action  -- with the pid of hw7c1
  wait_for : (pid : ℕ) → Action
  kill : (pid sig : ℕ) → Action
  exit_failure : Action
  return_zero : Action

launched : (hw7c1 hw7c2 : ℕ) → List Action
launched hw7c1 hw7c2 = wait_for hw7c2 ∷ kill hw7c1 sigusr2 ∷ wait_for hw7c1 ∷ return_zero ∷ []

-- The second fork, and what follows. A process whose execv(2) succeeds does no more of this.
launch_hw7c2 : Host → (hw7c1 : ℕ) → Fork → List Action
unfolding launched
launch_hw7c2 h hw7c1 failed = exit_failure ∷ []
launch_hw7c2 h hw7c1 child = exec_hw7c2 hw7c1 ∷ (if h.execs2 then [] else exit_failure ∷ [])
launch_hw7c2 h hw7c1 (parent hw7c2) = launched hw7c1 hw7c2

launch_hw7c1 : Host → Fork → List Action
unfolding launch_hw7c2
launch_hw7c1 h failed = exit_failure ∷ []
launch_hw7c1 h child = exec_hw7c1 ∷ (if h.execs1 then [] else exit_failure ∷ [])
launch_hw7c1 h (parent hw7c1) = launch_hw7c2 h hw7c1 h.fork2

-- `main` of hw7.c, in each of the processes that it becomes.
unfoldable pub hw7 : Host → List Action
unfolding launch_hw7c1
hw7 h =
    if h.has_cwd && h.runs_hw7c1 && h.runs_hw7c2 then launch_hw7c1 h h.fork1 else exit_failure ∷ []

-- A signal with the process that sent it.
pub record Signal : Type 0 where
  pub signum : ℕ
  pub pid : ℕ

abbrev pub signal : ℕ → ℕ → Signal
signal n p = record { signum = n; pid = p }

-- The globals of hw7c1.c.
pub record Globals : Type 0 where
  pub log : Log
  pub sigpid : ℕ

abbrev pub globals : Log → ℕ → Globals
globals l p = record { log = l; sigpid = p }

-- Its `sighandler`, for each signal that is delivered during one pause(2).
unfoldable pub deliver : Globals → List Signal → Option Globals
deliver g [] = some g
deliver g (s ∷ ss) = elim (sighandler g.log s.signum) [
  | none ↦ none
  | some l ↦ deliver (globals l s.pid) ss
]

pub data Ending : Type 0 where
  terminates pausing undefined exits : Ending

pub record Run : Type 0 where
  pub ending : Ending
  pub shown : List Signal  -- "Rcvd signal … from pid#…"

abbrev pub run : Ending → List Signal → Run
run e l = record { ending = e; shown = l }

abbrev pub shown_then : List Signal → Run → Run
shown_then l r = run r.ending (l ++ r.shown)

-- `signo[0] != SIGUSR2 || sigpid != getppid()`, negated.
abbrev pub told_to_end : (ppid : ℕ) → Globals → Bool
told_to_end ppid g = get_or g.log.signo 0 0 == sigusr2 && g.sigpid == ppid

-- Each line names `sigpid`, the sender of the last signal.
abbrev pub lines_of : Globals → List Signal
lines_of g = map (λ n. signal n g.sigpid) (recorded g.log)

-- The loop: a batch is what is delivered during one pause(2).
unfoldable pub pause_loop : (ppid : ℕ) → Globals → List (List Signal) → Run
pause_loop ppid g [] = run (if told_to_end ppid g then terminates else pausing) []
pause_loop ppid g (batch ∷ bs) =
    if told_to_end ppid g
    then run terminates []
    else elim (deliver (globals (reset g.log) g.sigpid) batch) [
      | none ↦ run undefined []
      | some g' ↦ shown_then (lines_of g') (pause_loop ppid (globals (reset g'.log) g'.sigpid) bs)
    ]

-- `main` of hw7c1.c.
unfoldable pub hw7c1 : (accepts : ℕ → Bool) → (ppid : ℕ) → List (List Signal) → Run
unfolding pause_loop deliver
hw7c1 accepts ppid bs = elim (handlers accepts) [
  | none ↦ run exits []
  | some _ ↦ pause_loop ppid (globals empty_log 0) bs
]
