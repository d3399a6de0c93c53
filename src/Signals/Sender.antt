-- ===== src/Signals/Sender.antt =====
-- SOLNS/HW08/sigsender.c and SOLNS/HW07/hw7c2.c: programs that send signals.
use cs507_unix_programming.Prelude.{
  ℕ, zero, suc, ◌+◌, ◌-◌, List, [], ◌∷◌, ◌++◌, Bool, Option, none, some, Bytes, if◌then◌else◌, ◌==◌,
  ltb, leb, ◌&&◌, str_eq, false,
}
use cs507_unix_programming.Signals.Sigmasker.{chop}
use cs507_unix_programming.Signals.Log.{sigkill, sigstop}

-- A call of kill(2).
pub record Kill : Type 0 where
  pub pid : ℕ
  pub sig : ℕ

abbrev pub kill : ℕ → ℕ → Kill
kill p s = record { pid = p; sig = s }

-- The loop of sigsender.c, with the rounds left and its two `continue`s.
unfoldable pub send_signals : (pid isig left : ℕ) → List Kill
send_signals pid isig zero = []
send_signals pid isig (suc n) =
    let rest = send_signals pid (isig + 1) n in
    if isig == sigkill then rest else if isig == sigstop then rest else kill pid isig ∷ rest

-- `main` of sigsender.c; `none` is the usage message and exit(-1).
unfoldable pub sigsender : (scan : Bytes → ℕ) → (argv : List Bytes) → Option (List Kill)
unfolding send_signals
sigsender scan (name ∷ pid ∷ more) = some (send_signals (scan pid) 1 31)
sigsender scan _ = none

-- `for(isig= sig0; isig <= sign; ++isig) kill(hw7c1,isig);` with the rounds left.
unfoldable pub kill_range : (pid isig left : ℕ) → List Kill
kill_range pid isig zero = []
kill_range pid isig (suc n) = kill pid isig ∷ kill_range pid (isig + 1) n

-- What sscanf(3) finds for "%d-%d": one number, or two.
pub data Numbers : Type 0 where
  one : ℕ → Numbers
  two : ℕ → ℕ → Numbers

-- `if(qty == 1) sign= sig0; else if(sig0 > sign) swap`, and the loop.
unfoldable pub kills : (pid : ℕ) → Numbers → List Kill
unfolding kill_range
kills pid (one sig0) = kill_range pid sig0 1
kills pid (two sig0 sign) =
    if ltb sign sig0
    then kill_range pid sign (suc sig0 - sign)
    else kill_range pid sig0 (suc sign - sig0)

abbrev pub is_digit : Bytes → Bool
is_digit [] = false
is_digit (c ∷ s) = leb b'0' c && leb c b'9'

pub data Ending : Type 0 where
  terminates : Ending
  undefined : Ending

pub record Run : Type 0 where
  pub ending : Ending
  pub sent : List Kill

abbrev pub run : Ending → List Kill → Run
run e l = record { ending = e; sent = l }

abbrev pub sent_then : List Kill → Run → Run
sent_then l r = run r.ending (l ++ r.sent)

-- The loop over the lines that fgets(3) returns; at the end of the input the program terminates.
unfoldable pub read_lines : (scan : Bytes → Numbers) → (pid : ℕ) → List Bytes → Run
unfolding kills
read_lines scan pid [] = run terminates []
read_lines scan pid (text ∷ lines) = elim (chop text) [
  | none ↦ run undefined []
  | some b ↦
      let rest = read_lines scan pid lines in
      if is_digit b
      then sent_then (kills pid (scan b)) rest
      else if str_eq b (b'q' ∷ [])
      then run terminates []
      else rest
]

-- `main` of hw7c2.c; `none` where there is no pid: exit(-1).
unfoldable pub hw7c2 :
    (scan_pid : Bytes → ℕ) → (scan : Bytes → Numbers) → (argv lines : List Bytes) → Option Run
unfolding read_lines
hw7c2 scan_pid scan (name ∷ pid ∷ more) lines = some (read_lines scan (scan_pid pid) lines)
hw7c2 scan_pid scan _ lines = none
