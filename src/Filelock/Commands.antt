-- ===== src/Filelock/Commands.antt =====
-- Which requests the commands of the test program make, and what it says of them.
use cs507_unix_programming.Prelude.{
  ℕ, List, [], ◌∷◌, ◌++◌, Bool, Option, none, some, if◌then◌else◌, ◌==◌, get_or, ◌≡◌, ◌≢◌, arith,
}
use cs507_unix_programming.Filelock.{
  LockType, rdlck, wrlck, unlck, Cmd, setlk, setlkw, getlk, Whence, Flock, request,
}
use cs507_unix_programming.Filelock.Session.{
  zone_of, swhence_of, Input, Event, asks, usage, whence_not_supported, needs, query_needs,
  query_not_supported, command_not_supported, locked_by, not_locked, failed, succeeded, needs,
  whence_of, response, register, test, command, respond,
}

-- The requests among the events.
abbrev pub requests : List Event → List (Cmd × Flock)
requests [] = []
requests (asks c l ∷ es) = (c, l) ∷ requests es
requests (usage ∷ es) = requests es
requests (whence_not_supported w ∷ es) = requests es
requests (needs c ∷ es) = requests es
requests (query_needs c ∷ es) = requests es
requests (query_not_supported c ∷ es) = requests es
requests (command_not_supported c ∷ es) = requests es
requests (locked_by q p ∷ es) = requests es
requests (not_locked ∷ es) = requests es
requests (failed ∷ es) = requests es
requests (succeeded ∷ es) = requests es

-- The menu: r and R set a read lock, w and W a write lock, the capitals wait for it, u releases,
-- ?r and ?w ask who holds one.
abbrev pub menu : (c q : ℕ) → Option (Cmd × LockType)
menu c q =
    if c == b'r'
    then some (setlk, rdlck)
    else (if c == b'R'
        then some (setlkw, rdlck)
        else (if c == b'w'
            then some (setlk, wrlck)
            else (if c == b'W'
                then some (setlkw, wrlck)
                else (if c == b'u'
                    then some (setlk, unlck)
                    else (if c == b'?'
                        then (if q == b'r'
                            then some (getlk, rdlck)
                            else (if q == b'w' then some (getlk, wrlck) else none))
                        else none)))))

-- What a line asks for, if its command is on the menu and the rest is complete.
abbrev pub wanted_by :
    (stale : ℕ) → Option (Cmd × LockType) → Option Whence → Option (ℕ × ℕ) → List (Cmd × Flock)
wanted_by stale (some (c, type)) (some whence) (some (offset, len)) =
    (c, request stale type offset whence len) ∷ []
wanted_by stale (some m) (some whence) none = []
wanted_by stale (some m) none z = []
wanted_by stale none w z = []

abbrev pub wanted : Input → List (Cmd × Flock)
wanted i =
    wanted_by i.stale (menu (get_or i.text 0 0) (get_or i.text 1 0)) (whence_of (swhence_of i.scan))
      (zone_of i.scan)

-- The requests of the lines before one that begins with q.
abbrev pub all_wanted : List Input → List (Cmd × Flock)
all_wanted [] = []
all_wanted (i ∷ is) = if get_or i.text 0 0 == b'q' then [] else wanted i ++ all_wanted is

abbrev pub warning : (c q : ℕ) → Event
warning c q = if c == b'?' then query_needs q else needs c

-- A command of the menu without its zone does nothing.
command_incomplete :
    (i : Input) (c q : ℕ) (whence : Whence) (ret : Bool)
    → menu c q ≢ none
    → zone_of i.scan ≡ none
    → command i c q whence ret
      ≡ response ret (warning c q ∷ (if ret then failed else succeeded) ∷ [])
unfolding command register test
command_incomplete i c q whence ret m z = rw z (ground (arith, m))

-- A command of the menu with a known whence but not all of the zone makes no request, and
-- behind its warning the line says that the operation failed or succeeded, as ret was left by
-- the lines before.
pub respond_incomplete :
    (i : Input) (whence : Whence) (ret : Bool)
    → menu (get_or i.text 0 0) (get_or i.text 1 0) ≢ none
    → whence_of (swhence_of i.scan) ≡ some whence
    → zone_of i.scan ≡ none
    → respond i ret
      ≡ response ret (
          warning (get_or i.text 0 0) (get_or i.text 1 0)
          ∷ (if ret then failed else succeeded)
          ∷ [])
unfolding respond
respond_incomplete i whence ret m w z =
    rw w (command_incomplete i (get_or i.text 0 0) (get_or i.text 1 0) whence ret m z)
