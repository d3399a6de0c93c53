-- ===== src/Jumping/Shown.antt =====
-- Which messages sigsetjmp.c shows, for any order of the signals.
use cs507_unix_programming.Prelude.{
  ℕ, zero, suc, List, [], ◌∷◌, ◌++◌, none, some, All, append-nil, replicate, ◌≡◌, ◌≢◌, refl, ap,
  ◌∙◌,
}
use cs507_unix_programming.Jumping.{
  sigusr1, sigusr2, Line, in_loop, after_jump, Pc, installs1, installs2, sets_jump, pauses,
  in_pause, shows, jumped, exited, killed, undefined, State, start, Event, goes_on, usr1, usr2,
  main, handler_sigusr1, handler_sigusr2, step, run,
}

abbrev pub InLoop : Line → Type 0
InLoop line = line ≡ in_loop (some sigusr1)

-- Behind the loop there is one line more, with either message.
abbrev pub Ending : List Line → Type 0
Ending [] = ⊥
Ending (in_loop m ∷ lines) = ⊥
Ending (after_jump m ∷ lines) = (m ≢ none) × All InLoop lines

-- What was printed when main stands there.
abbrev pub Shown : Pc → State → Type 0
Shown exited s = Ending s.printed
Shown shows s = All InLoop s.printed × (s.mesg ≡ some sigusr1)
Shown jumped s = All InLoop s.printed × (s.mesg ≢ none)
Shown installs1 s = (s.printed ≡ []) × (s.mesg ≡ none)
Shown installs2 s = (s.printed ≡ []) × (s.mesg ≢ some sigusr2)
Shown sets_jump s = (s.printed ≡ []) × (s.mesg ≢ some sigusr2)
Shown killed s = s.printed ≡ []
Shown undefined s = s.printed ≡ []
Shown pauses s = All InLoop s.printed × (s.mesg ≢ some sigusr2)
Shown in_pause s = All InLoop s.printed × (s.mesg ≢ some sigusr2)

nothing-InLoop : (lines : List Line) → lines ≡ [] → All InLoop lines
nothing-InLoop lines h = rw h tt

main-Shown : (p : Pc) (s : State) → s.pc ≡ p → Shown p s → Shown (main p s).pc (main p s)
main-Shown installs1 s e h = (h.0, λ k. cc)
main-Shown installs2 s e h = h
main-Shown sets_jump s e h = (nothing-InLoop s.printed h.0, h.1)
main-Shown pauses s e h = h
main-Shown in_pause s e h = rw e h
main-Shown shows s e h = ((ap in_loop h.1, h.0), λ k. cc)
main-Shown jumped s e h = (h.1, h.0)
main-Shown exited s e h = rw e h
main-Shown killed s e h = rw e h
main-Shown undefined s e h = rw e h

usr1-Shown :
    (p : Pc) (s : State)
    → s.pc ≡ p
    → Shown p s
    → Shown (handler_sigusr1 p s).pc (handler_sigusr1 p s)
usr1-Shown installs1 s e h = h.0
usr1-Shown installs2 s e h = rw e (h.0, λ k. cc)
usr1-Shown sets_jump s e h = rw e (h.0, λ k. cc)
usr1-Shown pauses s e h = rw e (h.0, λ k. cc)
usr1-Shown in_pause s e h = (h.0, refl)
usr1-Shown shows s e h = rw e (h.0, refl)
usr1-Shown jumped s e h = rw e (h.0, λ k. cc)
usr1-Shown exited s e h = rw e h
usr1-Shown killed s e h = rw e h
usr1-Shown undefined s e h = rw e h

usr2-Shown :
    (p : Pc) (s : State)
    → s.pc ≡ p
    → Shown p s
    → Shown (handler_sigusr2 p s).pc (handler_sigusr2 p s)
usr2-Shown installs1 s e h = h.0
usr2-Shown installs2 s e h = h.0
usr2-Shown sets_jump s e h = h.0
usr2-Shown pauses s e h = (h.0, λ k. cc)
usr2-Shown in_pause s e h = (h.0, λ k. cc)
usr2-Shown shows s e h = (h.0, λ k. cc)
usr2-Shown jumped s e h = (h.0, λ k. cc)
usr2-Shown exited s e h = rw e h
usr2-Shown killed s e h = rw e h
usr2-Shown undefined s e h = rw e h

step-Shown : (e : Event) (s : State) → Shown s.pc s → Shown (step e s).pc (step e s)
unfolding step
step-Shown goes_on s h = main-Shown s.pc s refl h
step-Shown usr1 s h = usr1-Shown s.pc s refl h
step-Shown usr2 s h = usr2-Shown s.pc s refl h

from-Shown : (es : List Event) (s : State) → Shown s.pc s → Shown (run es s).pc (run es s)
unfolding run
from-Shown [] s h = h
from-Shown (e ∷ es) s h = from-Shown es (step e s) (step-Shown e s h)

-- After any sequence of signals and steps of sigsetjmp.c: every line of the loop shows sigusr1,
-- and the process that has ended by exit has shown, behind these, one line with a message that
-- is set; one that was killed, or that has jumped before sigsetjmp, has shown nothing.
pub run-Shown : (es : List Event) → Shown (run es start).pc (run es start)
run-Shown es = from-Shown es start (refl, refl)

-- A signal for each pause, and the printf behind it.
abbrev pub signalled : (n : ℕ) → List Event
signalled zero = usr2 ∷ goes_on ∷ []
signalled (suc n) = usr1 ∷ goes_on ∷ goes_on ∷ signalled n

run-signalled :
    (n : ℕ) (s : State)
    → s.pc ≡ in_pause
    → ((run (signalled n) s).printed
        ≡ after_jump (some sigusr2) ∷ (replicate n (in_loop (some sigusr1)) ++ s.printed))
      × ((run (signalled n) s).pc ≡ exited)
unfolding run step
run-signalled zero s h = rw h (refl, refl)
run-signalled (suc n) s h =
    let s' : State = record s {
      mesg = some sigusr1;
      printed = in_loop (some sigusr1) ∷ s.printed;
      pc = in_pause;
    } in
    let rest = run-signalled n s' refl in
    rw h (rest.0 ∙ ap (◌∷◌ (after_jump (some sigusr2))) (shift n), rest.1)
  where
    shift :
        (n : ℕ)
        → replicate n (in_loop (some sigusr1)) ++ in_loop (some sigusr1) ∷ s.printed
          ≡ in_loop (some sigusr1) ∷ (replicate n (in_loop (some sigusr1)) ++ s.printed)
    shift zero = refl
    shift (suc n) = ap (◌∷◌ (in_loop (some sigusr1))) (shift n)

-- If SIGUSR1 comes any number of times, each time in pause, and then SIGUSR2 in pause, the program
-- shows sigusr1 as often and then sigusr2 behind the jump, and nothing else.
pub shown_in_turn :
    (n : ℕ)
    → (run (goes_on ∷ goes_on ∷ goes_on ∷ goes_on ∷ signalled n) start).printed
      ≡ after_jump (some sigusr2) ∷ replicate n (in_loop (some sigusr1))
unfolding run step
shown_in_turn n =
    (run-signalled n (record start { pc = in_pause }) refl).0
    ∙ ap (◌∷◌ (after_jump (some sigusr2))) (append-nil (replicate n (in_loop (some sigusr1))))
