-- ===== src/Filelock/Tests.antt =====
-- The theorems on filelock.c with a lock on the first byte that process 7 holds.
use cs507_unix_programming.Prelude.{
  List, [], ◌∷◌, Bytes, ℕ, zero, suc, true, false, Option, none, some, ◌≡◌, refl,
}
use cs507_unix_programming.Filelock.Session.{
  command, Input, all_four, words, word, session, asks, succeeded, failed, locked_by, needs,
  respond,
}
use cs507_unix_programming.Filelock.{
  getlk, lock_reg, setlk, rdlck, wrlck, unlck, seek_set, Flock, Fcntl, request, lock_test,
}

abbrev holder_at : ℕ → Option ℕ
holder_at zero = some 7
holder_at (suc n) = none

abbrev holder : Flock → Option ℕ
holder l = holder_at l.l_start

abbrev reported : Option ℕ → Flock → Flock
reported none l = record l { l_type = unlck }
reported (some p) l = record l { l_type = wrlck; l_pid = p }

abbrev fcntl : Fcntl
fcntl cmd l = record { fails = false; lock = reported (holder l) l }

abbrev bad_descriptor : Fcntl
bad_descriptor cmd l = record { fails = true; lock = l }

abbrev bgn : Bytes
bgn = b'b' ∷ b'g' ∷ b'n' ∷ []

-- "r bgn 0 1", "?w bgn 0 1", "r bgn", "q"
abbrev lines : List Input
lines =
    record { text = b'r' ∷ b' ' ∷ []; scan = all_four bgn 0 1; fcntl = fcntl; stale = 0 }
    ∷ record { text = b'?' ∷ b'w' ∷ []; scan = all_four bgn 0 1; fcntl = fcntl; stale = 0 }
    ∷ record { text = b'r' ∷ b' ' ∷ []; scan = words bgn; fcntl = fcntl; stale = 0 }
    ∷ record { text = b'q' ∷ []; scan = word; fcntl = fcntl; stale = 0 }
    ∷ []

session_events :
    session lines false
    ≡ asks setlk (request 0 rdlck 0 seek_set 1)
      ∷ succeeded
      ∷ asks getlk (request 0 wrlck 0 seek_set 1)
      ∷ locked_by b'w' 7
      ∷ failed
      ∷ needs b'r'
      ∷ failed
      ∷ []
unfolding session respond command lock_reg lock_test
session_events = refl

abbrev incomplete : Input
incomplete = record { text = b'r' ∷ b' ' ∷ []; scan = words bgn; fcntl = fcntl; stale = 0 }
