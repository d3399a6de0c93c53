-- ===== src/Rounds/Tests.antt =====
-- The theorems on the threads with rounds, at the end of a run or at its beginning.
use cs507_unix_programming.Prelude.{
  ◌+◌, ◌<◌, List, ◌++◌, Bool, true, false, some, replicate, along-keeps, ◌≡◌, refl, ◌⊎◌,
}
use cs507_unix_programming.Rounds.Waiting
use cs507_unix_programming.Rounds.Guarded
use cs507_unix_programming.Rounds.Sharing

-- procA of thrd2.c has counted, procB has not.
abbrev ahead : Waiting.State
ahead = record { res_a = 1; res_b = 0; a = Waiting.Pc.waits 0; b = Waiting.Pc.rounds 0 }

Reach-ahead : Waiting.Reach ahead
unfolding Waiting.step
Reach-ahead = Waiting.Reach.later true Waiting.Reach.here

goes_on_example :
    ((Waiting.step true ahead ≡ ahead)
      ⊎ (Waiting.both_left (Waiting.step true ahead) < Waiting.both_left ahead))
    × (((ahead.a ≡ Waiting.Pc.ended) × (ahead.b ≡ Waiting.Pc.ended))
        ⊎ ((Waiting.both_left (Waiting.step true ahead) < Waiting.both_left ahead)
            ⊎ (Waiting.both_left (Waiting.step false ahead) < Waiting.both_left ahead)))
goes_on_example = Waiting.goes_on true Reach-ahead

abbrev one_by_one : List Bool
one_by_one = replicate 17 true ++ replicate 17 false

-- thrd_unnamedsem.c with procB behind procA.
abbrev printed_all : Guarded.State
printed_all = record {
  unnsem = 1;
  printed = replicate 4 false ++ replicate 4 true;
  a = Guarded.Pc.ended;
  b = Guarded.Pc.ended;
}

Reach-printed_all : Guarded.Reach printed_all
unfolding Guarded.step
Reach-printed_all =
    along-keeps Guarded.step Guarded.Reach (λ who s t r e. Guarded.Reach.later who r e) one_by_one
      Guarded.Reach.here refl

stuck_ended_example :
    (Guarded.count true printed_all.printed ≡ 4)
    × (Guarded.count false printed_all.printed ≡ 4)
    × (printed_all.unnsem ≡ 1)
unfolding Guarded.step
stuck_ended_example = Guarded.stuck_ended Reach-printed_all refl refl

abbrev first_step : Guarded.State
first_step = record Guarded.start { a = Guarded.Pc.waits 0 }

first_step_lem : Guarded.step true Guarded.start ≡ some first_step
unfolding Guarded.step
first_step_lem = refl

step-left_example :
    Guarded.left first_step.a + Guarded.left first_step.b
    < Guarded.left Guarded.start.a + Guarded.left Guarded.start.b
step-left_example = Guarded.step-left true Guarded.Reach.here first_step_lem

-- hw11.c with the argument 7, and do_one_thing first.
abbrev wrapped_up : Sharing.State
wrapped_up = record {
  r1 = 4;
  r2 = 4;
  r3 = 5;
  locked = false;
  one = Sharing.Pc.ended 60007;
  another = Sharing.Pc.ended 60006;
}
