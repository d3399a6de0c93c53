-- ===== src/Processes.antt =====
-- SOLNS/HW06: fels.c runs ls(1) in a child process, ids.c prints what a process is known by.
use cs507_unix_programming.Prelude.{ℕ, List, [], ◌∷◌, Bool, if◌then◌else◌}

-- What fork(2) returns: the child in the parent, 0 in the child, -1 as it fails.
pub data Fork : Type 0 where
  parent_of : (pid : ℕ) → Fork
  child failed : Fork

-- A line of output: a label and a number, or the message for an error.
pub data Line : Type 0 where
  wifexited wexitstatus wifsignaled wtermsig wifstopped wstopsig : ℕ → Line
  pid ppid uid euid gid egid : ℕ → Line
  execl_failed fork_failed : Line

-- How the image of the program ends: main returns 0, exit with a status of -1, or ls replaces it.
pub data End : Type 0 where
  returns_zero exits_with_minus_one becomes_ls : End

pub record Ended : Type 0 where
  pub lines : List Line
  pub ending : End

-- The macros of wait(2) on the status that waitpid stores.
pub record Status : Type 0 where
  pub if_exited : ℕ
  pub exit_status : ℕ
  pub if_signaled : ℕ
  pub term_sig : ℕ
  pub if_stopped : ℕ
  pub stop_sig : ℕ

abbrev pub status_lines : Status → List Line
status_lines s =
    wifexited s.if_exited
    ∷ wexitstatus s.exit_status
    ∷ wifsignaled s.if_signaled
    ∷ wtermsig s.term_sig
    ∷ wifstopped s.if_stopped
    ∷ wstopsig s.stop_sig
    ∷ []

-- `main` of fels.c, after fork. execl(3) returns only as it fails, so that `exit(0)` is not reached.
abbrev pub fels : Fork → (waitpid : ℕ → Status) → (execl_fails : Bool) → Ended
fels (parent_of p) waitpid execl_fails = record {
  lines = status_lines (waitpid p);
  ending = returns_zero;
}
fels child waitpid execl_fails =
    if execl_fails
    then record { lines = execl_failed ∷ []; ending = exits_with_minus_one }
    else record { lines = []; ending = becomes_ls }
fels failed waitpid execl_fails = record { lines = fork_failed ∷ []; ending = exits_with_minus_one }

-- `main` of ids.c
abbrev pub ids : (getpid getppid getuid geteuid getgid getegid : ℕ) → List Line
ids getpid getppid getuid geteuid getgid getegid =
    pid getpid ∷ ppid getppid ∷ uid getuid ∷ euid geteuid ∷ gid getgid ∷ egid getegid ∷ []
