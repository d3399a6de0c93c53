-- ===== src/PingPong/Posting.antt =====
-- pingpong2.c: POSIX semaphores. `Ping` and `Pong` are the same code with the names exchanged.
pub mod Order
use cs507_unix_programming.Prelude.{ℕ, ◌+◌, ◌-◌, Option, none, some, if◌then◌else◌, ltb}
use cs507_unix_programming.PingPong.{
  Player, other, Pc, top, await, work, disable, release, ended, round, leaves, Thread, State, sem,
  set_sem, thread, go, next_loop, print,
}

-- A call of thread p, standing at that place.
abbrev pub call : (loops : ℕ) → Player → Pc → State → Option State
call loops p top s =
    some (if ltb (thread p s).loop loops then go p await s else go p ended (print (leaves p) s))
call loops p await s =
    if ltb 0 (sem p s) then some (go p work (set_sem p (sem p s - 1) s)) else none
call loops p work s = some (go p disable (print (round p (thread p s).loop) s))
call loops p disable s = some (go p release (set_sem p 0 s))
call loops p release s = some (next_loop p (set_sem (other p) (sem (other p) s + 1) s))
call loops p ended s = none

unfoldable pub step : (loops : ℕ) → Player → State → Option State
step loops p s = call loops p (thread p s).pc s
