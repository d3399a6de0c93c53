-- ===== src/Signals/Tests.antt =====
-- The theorems on the signal programs at concrete inputs, and tests by evaluation.
use cs507_unix_programming.Prelude.{◌∷◌, [], List, true}
use cs507_unix_programming.Signals.Interceptor.{Event, signal, word, no_word, quit}
use cs507_unix_programming.Signals.Family

abbrev three_events : List Event
three_events = signal 2 ∷ no_word ∷ signal 15 ∷ word quit ∷ []

abbrev both_forked : Family.Host
both_forked = record {
  has_cwd = true;
  runs_hw7c1 = true;
  runs_hw7c2 = true;
  fork1 = Family.Fork.parent 10;
  fork2 = Family.Fork.parent 11;
  execs1 = true;
  execs2 = true;
}
