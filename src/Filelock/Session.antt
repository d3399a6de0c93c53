-- ===== src/Filelock/Session.antt =====
-- hw5/filelock.c: the test program, which reads commands and makes requests.
use cs507_unix_programming.Prelude.{
  ℕ, List, [], ◌∷◌, ◌++◌, Bool, not, Option, none, some, Bytes, if◌then◌else◌, ◌==◌, str_eq, get_or,
}
use cs507_unix_programming.Filelock.{
  LockType, rdlck, wrlck, unlck, Cmd, setlk, setlkw, getlk, Whence, seek_set, seek_cur, seek_end,
  Flock, Fcntl, request, lock_reg, lock_test,
}

-- What sscanf(3) stores for "%s %s %ld %ld", behind the first word.
pub data Scan : Type 0 where
  nothing : Scan
  word : Scan
  words : (whence : Bytes) → Scan
  and_offset : (whence : Bytes) (offset : ℕ) → Scan
  all_four : (whence : Bytes) (offset len : ℕ) → Scan

-- `swhence`, which is empty before.
abbrev pub swhence_of : Scan → Bytes
swhence_of nothing = []
swhence_of word = []
swhence_of (words w) = w
swhence_of (and_offset w o) = w
swhence_of (all_four w o l) = w

-- `offset` and `len`, if `items` is 4.
abbrev pub zone_of : Scan → Option (ℕ × ℕ)
zone_of (all_four w o l) = some (o, l)
zone_of nothing = none
zone_of word = none
zone_of (words w) = none
zone_of (and_offset w o) = none

-- A line behind its leading blanks, as stpblk and sscanf give it, and fcntl(2) as it is then.
pub record Input : Type 0 where
  pub text : Bytes
  pub scan : Scan
  pub fcntl : Fcntl
  pub stale : ℕ  -- what the member `l_pid` of the request happens to hold

pub data Event : Type 0 where
  asks : Cmd → Flock → Event
  usage : Event
  whence_not_supported : Bytes → Event
  needs : (command : ℕ) → Event
  query_needs : (query : ℕ) → Event
  query_not_supported : (query : ℕ) → Event
  command_not_supported : ℕ → Event
  locked_by : (query pid : ℕ) → Event
  not_locked : Event
  failed succeeded : Event

abbrev pub whence_of : Bytes → Option Whence
whence_of w =
    if str_eq w (b'b' ∷ b'g' ∷ b'n' ∷ [])
    then some seek_set
    else (if str_eq w (b'c' ∷ b'u' ∷ b'r' ∷ [])
        then some seek_cur
        else (if str_eq w (b'e' ∷ b'n' ∷ b'd' ∷ []) then some seek_end else none))

abbrev pub whence_warning : Bytes → Event
whence_warning [] = usage
whence_warning (c ∷ w) = whence_not_supported (c ∷ w)

-- What a line does: the events, and whether `ret` is not 0 then.
pub record Response : Type 0 where
  pub ret : Bool
  pub events : List Event

abbrev pub response : Bool → List Event → Response
response ret events = record { ret = ret; events = events }

-- The line behind the switch.
abbrev pub report : Response → Response
report r = response r.ret (r.events ++ (if r.ret then failed else succeeded) ∷ [])

-- A command that sets or releases a lock, up to its `break`.
unfoldable pub register :
    Input → (command : ℕ) → Cmd → LockType → Whence → (ret : Bool) → Option (ℕ × ℕ) → Response
register i command cmd type whence ret none = response ret (needs command ∷ [])
register i command cmd type whence ret (some (offset, len)) =
    response (lock_reg i.fcntl i.stale cmd type offset whence len)
      (asks cmd (request i.stale type offset whence len) ∷ [])

abbrev pub found : (query pid : ℕ) → Event
found query pid = if pid == 0 then not_locked else locked_by query pid

unfoldable pub test :
    Input → (query : ℕ) → LockType → Whence → (ret : Bool) → Option (ℕ × ℕ) → Response
test i query type whence ret none = response ret (query_needs query ∷ [])
test i query type whence ret (some (offset, len)) =
    let pid = lock_test i.fcntl i.stale type offset whence len in
    response (not (pid == 0))
      (asks getlk (request i.stale type offset whence len) ∷ found query pid ∷ [])

-- The switch over the first letter c; q is the second.
unfoldable pub command : Input → (c q : ℕ) → Whence → (ret : Bool) → Response
unfolding register test
command i c q whence ret =
    let zone = zone_of i.scan in
    if c == b'r'
    then report (register i c setlk rdlck whence ret zone)
    else (if c == b'R'
        then report (register i c setlkw rdlck whence ret zone)
        else (if c == b'w'
            then report (register i c setlk wrlck whence ret zone)
            else (if c == b'W'
                then report (register i c setlkw wrlck whence ret zone)
                else (if c == b'u'
                    then report (register i c setlk unlck whence ret zone)
                    else (if c == b'?'
                        then (if q == b'r'
                            then report (test i q rdlck whence ret zone)
                            else (if q == b'w'
                                then report (test i q wrlck whence ret zone)
                                else response ret (query_not_supported q ∷ [])))
                        else response ret (command_not_supported c ∷ []))))))

abbrev pub with_whence : Input → (ret : Bool) → Option Whence → Response
with_whence i ret none = response ret (whence_warning (swhence_of i.scan) ∷ [])
with_whence i ret (some whence) = command i (get_or i.text 0 0) (get_or i.text 1 0) whence ret

unfoldable pub respond : Input → (ret : Bool) → Response
respond i ret = with_whence i ret (whence_of (swhence_of i.scan))

-- The loop over the lines: up to one that begins with q, or the end of the input. `ret` is not
-- set before the first.
unfoldable pub session : List Input → (ret : Bool) → List Event
session [] ret = []
session (i ∷ is) ret =
    let rest = session is (respond i ret).ret in
    if get_or i.text 0 0 == b'q' then [] else (respond i ret).events ++ rest
