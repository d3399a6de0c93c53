-- ===== src/Signals/Interceptor.antt =====
-- `main` of SOLNS/HW08/interceptor.c, after the handlers are installed.
use cs507_unix_programming.Prelude.{
  ℕ, List, [], ◌∷◌, ◌++◌, Bool, none, some, Bytes, if◌then◌else◌, str_eq,
}
use cs507_unix_programming.Signals.Log.{Log, sighandler, recorded, reset, empty_log, handlers}

-- What happens to the program, in order: a signal that it handles, or a return of scanf(3), with
-- a word or with none (an interrupted call).
pub data Event : Type 0 where
  signal : ℕ → Event
  word : Bytes → Event
  no_word : Event

pub data Ending : Type 0 where
  quits : Ending
  reading : Ending
  undefined : Ending  -- after a write behind `signo`
  exits : Ending  -- a sigaction(2) failed

pub record Run : Type 0 where
  pub ending : Ending
  pub shown : List ℕ
  pub log : Log

abbrev pub run : Ending → List ℕ → Log → Run
run e s l = record { ending = e; shown = s; log = l }

abbrev pub show_then : List ℕ → Run → Run
show_then s r = run r.ending (s ++ r.shown) r.log

abbrev pub quit : Bytes
quit = b'q' ∷ b'u' ∷ b'i' ∷ b't' ∷ []

-- The loop `while(1)`.
unfoldable pub intercept : Log → List Event → Run
intercept l [] = run reading [] l
intercept l (signal n ∷ es) = elim (sighandler l n) [
  | none ↦ run undefined [] l
  | some l' ↦ intercept l' es
]
intercept l (word w ∷ es) =
    let rest = show_then (recorded l) (intercept (reset l) es) in
    if str_eq w quit then run quits [] l else rest
intercept l (no_word ∷ es) = show_then (recorded l) (intercept (reset l) es)

unfoldable pub main : (accepts : ℕ → Bool) → List Event → Run
unfolding intercept
main accepts es = elim (handlers accepts) [
  | none ↦ run exits [] empty_log
  | some _ ↦ intercept empty_log es
]
