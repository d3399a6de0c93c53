-- ===== src/Opening.antt =====
-- examples/examples4/open.c: a file opened by letters for the flags and the permissions.
pub mod Described
pub mod Permissions
pub mod Using
mod Tests
use cs507_unix_programming.Prelude.{
  ℕ, ◌+◌, List, [], ◌∷◌, Bool, true, false, ◌&&◌, ◌||◌, Option, none, some, Bytes, leb,
  if◌then◌else◌, ◌==◌, ◌≡◌,
}

-- `flags`, its access in the two lowest bits, and `mode` by the numbers of its bits. The warnings
-- are counted.
pub record Selected : Type 0 where
  pub access : ℕ
  pub append : Bool
  pub creat : Bool
  pub excl : Bool
  pub trunc : Bool
  pub nonblock : Bool
  pub mode : ℕ → Bool
  pub warnings : ℕ

abbrev pub o_rdonly : ℕ
o_rdonly = 0

abbrev pub o_wronly : ℕ
o_wronly = 1

abbrev pub o_rdwr : ℕ
o_rdwr = 2

abbrev pub nothing : Selected
nothing = record {
  access = 0;
  append = false;
  creat = false;
  excl = false;
  trunc = false;
  nonblock = false;
  mode = λ k. false;
  warnings = 0;
}

-- strchr(arg, x) != NULL, for x other than NUL.
abbrev pub strchr : Bytes → ℕ → Bool
strchr [] x = false
strchr (c ∷ cs) x = c == x || strchr cs x

abbrev pub warn : Selected → Selected
warn s = record s { warnings = s.warnings + 1 }

-- A letter other than R, W and X.
abbrev pub select : (arg : Bytes) → (a : ℕ) → Selected → Selected
select arg a s =
    if a == b'r'
    then record s { access = if strchr arg b'w' then o_rdwr else o_rdonly }
    else if a == b'w'
    then record s { access = if strchr arg b'r' then o_rdwr else o_wronly }
    else if a == b'a'
    then record s { append = true }
    else if a == b'c'
    then record s { creat = true }
    else if a == b'e'
    then record s { excl = true }
    else if a == b't'
    then record s { trunc = true }
    else if a == b'b'
    then record s { nonblock = true }
    else warn s

-- The bit of S_IRUSR, S_IWUSR or S_IXUSR, after R, W or X.
abbrev pub permission : (a : ℕ) → Option ℕ
permission a =
    if a == b'R' then some 8 else if a == b'W' then some 7 else if a == b'X' then some 6 else none

-- mode |= 1 << bit.
abbrev pub set : (bit : ℕ) → Selected → Selected
set bit s = record s { mode = λ k. s.mode k || k == bit }

-- The letter behind R, W or X.
abbrev pub permit : (bit : ℕ) → (a : ℕ) → Selected → Selected
permit bit a s =
    if a == b'u'
    then set bit s
    else if a == b'g'
    then set (bit + 3) s
    else if a == b'o'
    then set (bit + 6) s
    else warn s

-- The loop over the letters from `a` on. Where R, W or X is the last letter, the loop steps over the
-- NUL and reads on behind the argument: that is undefined, and none here.
unfoldable pub letters : (arg : Bytes) → (a : Bytes) → Selected → Option Selected
letters arg [] s = some s
letters arg (a ∷ []) s = elim (permission a) [ some bit ↦ none | none ↦ some (select arg a s) ]
letters arg (a ∷ b ∷ rest) s = elim (permission a) [
  | some bit ↦ letters arg rest (permit bit b s)
  | none ↦ letters arg (b ∷ rest) (select arg a s)
]

-- What main asks of the kernel, and how it ends; `waits` where there is no reply.
pub data Call : Type 0 where
  opens : (path : Bytes) → Selected → Call
  reads : (size : ℕ) → Call
  writes : Bytes → Call
  closes : (fd : ℕ) → Call

pub data Ending : Type 0 where
  usage undefined failed waits finished : Ending

abbrev pub Trace : Type 0
Trace = List Call × Ending

abbrev pub call : Call → Trace → Trace
call c (cs, e) = (c ∷ cs, e)

-- One write(2) after the other; a reply says whether it was other than -1.
abbrev pub write_each : (texts : List Bytes) → (replies : List Bool) → Trace → Trace
write_each [] replies behind = behind
write_each (text ∷ texts) [] behind = (writes text ∷ [], waits)
write_each (text ∷ texts) (true ∷ replies) behind =
    call (writes text) (write_each texts replies behind)
write_each (text ∷ texts) (false ∷ replies) behind = (writes text ∷ [], failed)

-- "csc507 is great!\n"
abbrev pub great : Bytes
great =
    b'c' ∷ b's' ∷ b'c' ∷ b'5' ∷ b'0' ∷ b'7' ∷ 32 ∷ b'i' ∷ b's' ∷ 32 ∷ b'g' ∷ b'r' ∷ b'e' ∷ b'a'
    ∷ b't' ∷ b'!' ∷ 10 ∷ []

-- The arguments behind the file name, or the one text.
abbrev pub texts_of : (more : List Bytes) → List Bytes
texts_of [] = great ∷ []
texts_of (arg ∷ more) = arg ∷ more

abbrev pub close : (fd : ℕ) → Trace
close fd = if fd == 0 then ([], finished) else (closes fd ∷ [], finished)

abbrev pub write_part : Selected → (more : List Bytes) → (replies : List Bool) → (fd : ℕ) → Trace
write_part s more replies fd =
    if s.access == o_wronly || (s.creat && s.mode 7)
    then write_each (texts_of more) replies (close fd)
    else close fd

-- `got` says whether read(2) gave other than -1; what was read is only shown.
abbrev pub read_part :
    Selected → (more : List Bytes) → (got : Bool) → (replies : List Bool) → (fd : ℕ) → Trace
read_part s more got replies fd =
    if s.access == o_rdonly
    then (if got then call (reads 18) (write_part s more replies fd) else (reads 18 ∷ [], failed))
    else write_part s more replies fd

-- Behind the loop; `fd` is none for -1.
abbrev pub use_file :
    (path : Bytes)
    → (more : List Bytes) → (fd : Option ℕ) → (got : Bool) → (replies : List Bool) → Option Selected
    → Trace
use_file path more fd got replies none = ([], undefined)
use_file path more none got replies (some s) = (opens path s ∷ [], failed)
use_file path more (some fd) got replies (some s) =
    call (opens path s) (read_part s more got replies fd)

abbrev pub main :
    (args : List Bytes) → (fd : Option ℕ) → (got : Bool) → (replies : List Bool) → Trace
main [] fd got replies = ([], usage)
main (arg ∷ []) fd got replies = ([], usage)
main (arg ∷ path ∷ more) fd got replies =
    use_file path more fd got replies (letters arg arg nothing)
