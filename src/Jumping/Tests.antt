-- ===== src/Jumping/Tests.antt =====
-- The theorems on sigsetjmp.c at a run with both signals.
use cs507_unix_programming.Prelude.{[], ◌∷◌}
use cs507_unix_programming.Jumping.{start, goes_on, usr1, usr2, run}
use cs507_unix_programming.Jumping.Shown.{Shown, run-Shown}

run-Shown_example :
    Shown
      (run (goes_on ∷ goes_on ∷ goes_on ∷ usr1 ∷ usr2 ∷ goes_on ∷ []) start).pc
      (run (goes_on ∷ goes_on ∷ goes_on ∷ usr1 ∷ usr2 ∷ goes_on ∷ []) start)
run-Shown_example = run-Shown (goes_on ∷ goes_on ∷ goes_on ∷ usr1 ∷ usr2 ∷ goes_on ∷ [])
