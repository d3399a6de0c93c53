-- ===== src/Jumping.antt =====
-- examples/Lab09/sigsetjmp.c: one signal sets a message, the other one jumps out of a loop.
pub mod Shown
mod Tests
use cs507_unix_programming.Prelude.{
  ℕ, List, [], ◌∷◌, ◌++◌, Bool, true, false, Option, none, some, if◌then◌else◌, ◌≡◌,
}

pub data Mesg : Type 0 where
  sigusr1 sigusr2 : Mesg

-- A line with `mesg`, none for NULL: in the loop, or behind the jump.
pub data Line : Type 0 where
  in_loop after_jump : Option Mesg → Line

-- Where main stands: before each signal(2), before sigsetjmp, before pause and in it, before the
-- printf of the loop, before the printf behind the jump; or how it has ended: by exit, by a signal
-- that has no handler yet, or by a jump before sigsetjmp, which is undefined.
pub data Pc : Type 0 where
  installs1 installs2 sets_jump pauses in_pause shows jumped exited killed undefined : Pc

pub record State : Type 0 where
  pub mesg : Option Mesg
  pub printed : List Line
  pub pc : Pc

abbrev pub start : State
start = record { mesg = none; printed = []; pc = installs1 }

-- main goes on, or a signal arrives.
pub data Event : Type 0 where
  goes_on usr1 usr2 : Event

-- The next step of main. The last line that was printed is the first of the list.
abbrev pub main : Pc → State → State
main installs1 s = record s { pc = installs2 }
main installs2 s = record s { pc = sets_jump }
main sets_jump s = record s { pc = pauses }
main pauses s = record s { pc = in_pause }
main in_pause s = s
main shows s = record s { printed = in_loop s.mesg ∷ s.printed; pc = pauses }
main jumped s = record s { printed = after_jump s.mesg ∷ s.printed; pc = exited }
main exited s = s
main killed s = s
main undefined s = s

-- Behind the handler of SIGUSR1, pause returns.
abbrev pub handler_sigusr1 : Pc → State → State
handler_sigusr1 installs1 s = record s { pc = killed }
handler_sigusr1 in_pause s = record s { mesg = some sigusr1; pc = shows }
handler_sigusr1 installs2 s = record s { mesg = some sigusr1 }
handler_sigusr1 sets_jump s = record s { mesg = some sigusr1 }
handler_sigusr1 pauses s = record s { mesg = some sigusr1 }
handler_sigusr1 shows s = record s { mesg = some sigusr1 }
handler_sigusr1 jumped s = record s { mesg = some sigusr1 }
handler_sigusr1 exited s = s
handler_sigusr1 killed s = s
handler_sigusr1 undefined s = s

-- The handler of SIGUSR2 jumps to where sigsetjmp was called.
abbrev pub handler_sigusr2 : Pc → State → State
handler_sigusr2 installs1 s = record s { pc = killed }
handler_sigusr2 installs2 s = record s { pc = killed }
handler_sigusr2 sets_jump s = record s { mesg = some sigusr2; pc = undefined }
handler_sigusr2 pauses s = record s { mesg = some sigusr2; pc = jumped }
handler_sigusr2 in_pause s = record s { mesg = some sigusr2; pc = jumped }
handler_sigusr2 shows s = record s { mesg = some sigusr2; pc = jumped }
handler_sigusr2 jumped s = record s { mesg = some sigusr2; pc = jumped }
handler_sigusr2 exited s = s
handler_sigusr2 killed s = s
handler_sigusr2 undefined s = s

unfoldable pub step : Event → State → State
step goes_on s = main s.pc s
step usr1 s = handler_sigusr1 s.pc s
step usr2 s = handler_sigusr2 s.pc s

unfoldable pub run : List Event → State → State
run [] s = s
run (e ∷ es) s = run es (step e s)
