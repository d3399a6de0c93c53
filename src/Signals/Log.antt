-- ===== src/Signals/Log.antt =====
-- The handler of interceptor.c, sigmasker.c and hw7c1.c, and the loop that installs it.
use cs507_unix_programming.Prelude.{
  ℕ, zero, suc, ◌+◌, List, [], ◌∷◌, Bool, Option, none, some, length, take, set, if◌then◌else◌,
  ◌==◌, ltb, not, ◌&&◌, replicate,
}
use mathlib.Core.Option

abbrev pub sigkill : ℕ
sigkill = 9

abbrev pub sigstop : ℕ
sigstop = 19

-- `isig != SIGKILL && isig != 19`
abbrev pub catchable : ℕ → Bool
catchable isig = not (isig == sigkill) && not (isig == sigstop)

-- The loop over `isig`, with the rounds left; `none` if a sigaction(2) fails: exit(-1).
unfoldable pub install : (accepts : ℕ → Bool) → (isig left : ℕ) → Option (List ℕ)
install accepts isig zero = some []
install accepts isig (suc n) =
    let rest = install accepts (isig + 1) n in
    if catchable isig then (if accepts isig then Option.map (◌∷◌ isig) rest else none) else rest

-- `for(isig= 1; isig <= 31; ++isig)`
abbrev pub handlers : (accepts : ℕ → Bool) → Option (List ℕ)
handlers accepts = install accepts 1 31

abbrev pub signo_size : ℕ
signo_size = 32

-- `signo`, and `sigcnt + 1`.
pub record Log : Type 0 where
  pub signo : List ℕ
  pub count : ℕ

abbrev pub empty_log : Log
empty_log = record { signo = replicate signo_size 0; count = 0 }

-- `sighandler`; `none`: it writes behind `signo`.
unfoldable pub sighandler : Log → (signum : ℕ) → Option Log
sighandler l signum =
    if ltb l.count (length l.signo)
    then some (record { signo = set l.signo l.count signum; count = l.count + 1 })
    else none

-- `for(isig= 0; isig <= sigcnt; ++isig) printf("Rcvd signal …", signo[isig])`
abbrev pub recorded : Log → List ℕ
recorded l = take l.count l.signo

-- `sigcnt= -1`
abbrev pub reset : Log → Log
reset l = record l { count = 0 }
