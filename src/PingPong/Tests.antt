-- ===== src/PingPong/Tests.antt =====
-- The theorems on the three programs at concrete runs.
use cs507_unix_programming.Prelude.{
  some, ◌⊎◌, false, ◌+◌, ◌*◌, ◌≤◌, none, ◌≡◌, refl, length, [], ◌∷◌, arith,
}
use cs507_unix_programming.PingPong.{
  Player, ping, top, disable, release, ended, round, start, Reach, here, later, steps_of, State,
}
use cs507_unix_programming.PingPong.Turns.{rounds, turns}
use cs507_unix_programming.PingPong.Posting
use cs507_unix_programming.PingPong.Setting
use cs507_unix_programming.PingPong.Setting.Order.{setting_turns}
use cs507_unix_programming.PingPong.Condition
use cs507_unix_programming.PingPong.Condition.Order.{condition_turns}
use cs507_unix_programming.PingPong.Condition.Races.{signal-lost}

-- ping has shown its line of the first round.
abbrev posting_shown : State
posting_shown = record {
  ping_sem = 0;
  pong_sem = 0;
  ping_thread = record { pc = disable; loop = 0 };
  pong_thread = record { pc = top; loop = 0 };
  out = round ping 0 ∷ [];
}

abbrev setting_shown : State
setting_shown = record posting_shown { ping_thread = record { pc = release; loop = 0 } }

Reach-setting_shown : Reach (Setting.step 2) start setting_shown
unfolding Setting.step
Reach-setting_shown = later (later (later here ping refl) ping refl) ping refl

setting_turns_example :
    (rounds setting_shown.out ≡ turns (length (rounds setting_shown.out)))
    × (steps_of Reach-setting_shown ≤ 10 * 2 + 2)
    × (((p : Player) × (t : State) × (Setting.step 2 p setting_shown ≡ some t))
        ⊎ ((setting_shown.ping_thread.pc ≡ ended)
            × (setting_shown.pong_thread.pc ≡ ended)
            × (rounds setting_shown.out ≡ turns (2 + 2))))
setting_turns_example = setting_turns 2 Reach-setting_shown

-- main has signalled ping, which waited, and ping has shown its line.
abbrev condition_shown : Condition.State
condition_shown = record {
  main_signals = false;
  ping_thread = record { pc = Condition.signals; loop = 0 };
  pong_thread = record { pc = Condition.top; loop = 0 };
  out = round ping 0 ∷ [];
}

Reach-condition_shown : Condition.Reach Condition.Signalled 2 condition_shown
unfolding Condition.step
Reach-condition_shown =
    Condition.later (Condition.thread_calls ping)
      (Condition.later Condition.main_calls
        (Condition.later (Condition.thread_calls ping)
          (Condition.later (Condition.thread_calls ping) Condition.here tt refl) tt refl)
        tt refl)
      tt refl

condition_turns_example : rounds condition_shown.out ≡ turns (length (rounds condition_shown.out))
condition_turns_example = condition_turns Reach-condition_shown

signal-lost_example :
    (s : Condition.State) × Condition.Reach Condition.Signalled 10 s
    × ((p : Player) → Condition.step 10 (Condition.thread_calls p) s ≡ none)
    × (Condition.step 10 Condition.main_calls s ≡ none)
    × (s.ping_thread.pc ≡ Condition.asleep)
    × (s.pong_thread.pc ≡ Condition.asleep)
    × (s.out ≡ [])
signal-lost_example = signal-lost 10 (omega arith)
