-- ===== src/PingPong/Setting.antt =====
-- pingpong3.c: a set of two System V semaphores, which SETALL gives both their values at once.
pub mod Order
use cs507_unix_programming.Prelude.{
  ℕ, ◌-◌, Bool, true, false, Option, none, some, if◌then◌else◌, ltb,
}
use cs507_unix_programming.PingPong.{
  Player, other, Pc, top, await, work, disable, release, ended, round, leaves, Thread, State, sem,
  set_sem, thread, go, next_loop, print,
}

-- `main` up to the threads: it ends with the set removed or not, or it starts them.
pub data Setup : Type 0 where
  exits : (removed : Bool) → Setup
  runs : Setup

abbrev pub initialized : (setall : Bool) → Setup
initialized setall = if setall then runs else exits true

-- What semget with IPC_EXCL, semget without it after EEXIST, and semctl answer.
unfoldable pub setup : (made exists joined setall : Bool) → Setup
setup made exists joined setall =
    if made
    then initialized setall
    else (if exists then (if joined then initialized setall else exits false) else exits false)

-- semctl SETALL with `pingarray` or `pongarray`
abbrev pub set_all : Player → State → State
set_all p s = set_sem p 1 (set_sem (other p) 0 s)

-- A call of thread p, standing at that place; there is no sem_init.
abbrev pub call : (loops : ℕ) → Player → Pc → State → Option State
call loops p top s =
    some (if ltb (thread p s).loop loops then go p await s else go p ended (print (leaves p) s))
call loops p await s =
    if ltb 0 (sem p s) then some (go p work (set_sem p (sem p s - 1) s)) else none
call loops p work s = some (go p release (print (round p (thread p s).loop) s))
call loops p disable s = none
call loops p release s = some (next_loop p (set_all (other p) s))
call loops p ended s = none

unfoldable pub step : (loops : ℕ) → Player → State → Option State
step loops p s = call loops p (thread p s).pc s
