-- ===== src/Uplister.antt =====
-- SOLNS/HW04/uplister.c: list the working directory and each one above it.
pub mod Ancestors
pub mod Tests
use cs507_unix_programming.Prelude.{
  ℕ, zero, suc, ◌+◌, ◌-◌, List, [], ◌∷◌, ◌++◌, Option, none, some, Bool, Bytes, if◌then◌else◌, ◌==◌,
  length, str_eq,
}

-- `d_type`, as far as the listing tells the types apart.
pub data FileType : Type 0 where
  dir fifo lnk reg unknown : FileType

pub record DirEntry : Type 0 where
  pub d_name : Bytes
  pub d_type : FileType

abbrev pub mark : FileType → Bytes
mark dir = b'/' ∷ []
mark fifo = b'|' ∷ []
mark lnk = b'@' ∷ []
mark reg = []
mark unknown = b'?' ∷ []

-- A printed line: "%s:" behind `depth - 1` indents, or a name and its mark behind `depth`.
pub data Line : Type 0 where
  title : (indents : ℕ) → Bytes → Line
  item : (indents : ℕ) → Bytes → Line

-- strrchr(path,'/'): what stands in front of the last slash, and what stands behind it.
unfoldable pub last_slash : Bytes → Option (Bytes × Bytes)
last_slash [] = none
last_slash (c ∷ s) = elim (last_slash s) [
  | some (front, back) ↦ some (c ∷ front, back)
  | none ↦ if c == b'/' then some ([], s) else none
]

unfoldable pub items : (depth : ℕ) → List DirEntry → List Line
items depth [] = []
items depth (f ∷ files) =
    if str_eq f.d_name (b'.' ∷ [])
    then items depth files
    else (if str_eq f.d_name (b'.' ∷ b'.' ∷ [])
        then items depth files
        else item depth (f.d_name ++ mark f.d_type) ∷ items depth files)

abbrev pub heading : (depth : ℕ) → Option (Bytes × Bytes) → Line
heading depth none = title (depth - 1) (b'/' ∷ [])
heading depth (some (front, back)) = title (depth - 1) back

pub data Ending : Type 0 where
  returns : Ending
  exits : Ending  -- opendir(3) failed
  out_of_fuel : Ending

pub record Run : Type 0 where
  pub ending : Ending
  pub visited : List Bytes  -- the `dirname` of each call
  pub lines : List Line

abbrev pub run : Ending → List Bytes → List Line → Run
run e v l = record { ending = e; visited = v; lines = l }

abbrev pub call_then : Bytes → List Line → Run → Run
call_then d l r = run r.ending (d ∷ r.visited) (l ++ r.lines)

abbrev pub root : Bytes
root = b'/' ∷ []

-- `if(path[0] == '\0') UpLister("/",depth+1); else UpLister(path,depth+1);`
abbrev pub dirname_of : Bytes → Bytes
dirname_of [] = root
dirname_of (c ∷ s) = c ∷ s

-- `UpLister`. `path` is the global; `opendir` gives the entries that readdir(3) returns.
unfoldable pub up_lister :
    (opendir : Bytes → Option (List DirEntry))
    → (fuel : ℕ) → (path dirname : Bytes) → (depth : ℕ) → Run
up_lister opendir zero path dirname depth = run out_of_fuel [] []
up_lister opendir (suc fuel) path dirname depth = elim (opendir dirname) [
  | none ↦ run exits (dirname ∷ []) []
  | some files ↦
      call_then dirname (heading depth (last_slash path) ∷ items depth files)
        (elim (last_slash path) [
          | none ↦ run returns [] []
          | some (front, back) ↦ up_lister opendir fuel front (dirname_of front) (depth + 1)
        ])
]

-- `main`: each call takes a slash at least off the path, so that its length is fuel enough.
unfoldable pub main : (opendir : Bytes → Option (List DirEntry)) → (getcwd : Option Bytes) → Run
unfolding up_lister items last_slash
main opendir none = run exits [] []
main opendir (some path) = up_lister opendir (suc (length path)) path path 0
