-- ===== src/Threshold/Tests.antt =====
-- The theorem on thrdcond.c at a run in which the watcher has come to wait.
use cs507_unix_programming.Prelude.{◌≤◌, ◌≢◌, refl}
use cs507_unix_programming.Threshold.{
  IncPc, WatchPc, State, start, Reach, here, later, step, watcher_calls, first_calls,
}
use cs507_unix_programming.Threshold.Waiting.{watcher-waits}

abbrev waiting : State
waiting = record start { watcher = WatchPc.asleep; first = IncPc.top 0; running = 4 }

Reach-waiting : Reach waiting
unfolding step
Reach-waiting =
    later first_calls
      (later first_calls (later watcher_calls (later watcher_calls here refl) refl) refl) refl

watcher-waits_example :
    (waiting.count ≤ 12)
    × (waiting.watcher ≢ WatchPc.unlocks)
    × (waiting.watcher ≢ WatchPc.returned)
watcher-waits_example = watcher-waits Reach-waiting refl
