-- ===== src/Exercises/Walk.antt =====
-- hw4/uplister.c: directories up to a limit, by a path that grows by /.. each time.
use cs507_unix_programming.Prelude.{
  ℕ, zero, suc, ◌+◌, ◌*◌, List, [], ◌∷◌, ◌++◌, Option, none, some, Bytes, length, ltb,
  if◌then◌else◌, ◌==◌,
}

abbrev pub size : ℕ
size = 1024

abbrev pub trav_lim : ℕ
trav_lim = 4

-- sizeof(cwdPtr).
abbrev pub pointer_size : ℕ
pointer_size = 8

-- A directory entry: d_type and d_name.
pub record Entry : Type 0 where
  pub d_type : ℕ
  pub d_name : Bytes

-- opendir(3) with what readdir(3) gives of the directory, the working directory of the process, and
-- what a getcwd(3) that fails leaves in the buffer.
pub record Host : Type 0 where
  pub opendir : (path : Bytes) → Option (List Entry)
  pub working : Bytes
  pub failed_getcwd : (buffer : Bytes) → Bytes

-- What the process does. The streams are counted in the order of opendir.
pub data Event : Type 0 where
  opens : (path : Bytes) → Event
  shows : (line : Bytes) → Event
  closes : (stream : ℕ) → Event
  complains completes undefined : Event

abbrev pub getcwd : Host → (size : ℕ) → (buffer : Bytes) → Bytes
getcwd host size buffer =
    if ltb (length host.working) size then host.working else host.failed_getcwd buffer

abbrev pub blanks : ℕ → Bytes
blanks zero = []
blanks (suc n) = 32 ∷ blanks n

-- The lines for the files of a directory: "%*s\n".
abbrev pub lines : (cnt : ℕ) → List Entry → List Event
lines cnt [] = []
lines cnt (entry ∷ entries) =
    if entry.d_type == 8
    then shows (blanks (cnt * 2) ++ (entry.d_name ++ (10 ∷ []))) ∷ lines cnt entries
    else lines cnt entries

-- "/.."
abbrev pub parent : Bytes
parent = 47 ∷ 46 ∷ 46 ∷ []

-- printCon with `left` levels left, *cnt being `cnt`, on the stream `cnt`.
unfoldable pub print_con :
    (host : Host) → (left cnt : ℕ) → (cwd : Bytes) → (ptr : Option (List Entry)) → List Event
print_con host left cnt cwd none = complains ∷ completes ∷ []
print_con host zero cnt cwd (some entries) = completes ∷ []
print_con host (suc left) cnt cwd (some entries) =
    lines cnt entries
    ++ (closes cnt
        ∷ (if ltb (length cwd + 3) size
            then opens (cwd ++ parent)
              ∷ print_con host left (cnt + 1) (getcwd host pointer_size (cwd ++ parent))
                  (host.opendir (cwd ++ parent))
            else undefined ∷ []))

-- The buffer is a global, and empty before the first getcwd.
unfoldable pub main : Host → List Event
main host =
    let cwd = getcwd host size [] in
    opens cwd ∷ (print_con host trav_lim 0 cwd (host.opendir cwd) ++ (closes 0 ∷ []))
