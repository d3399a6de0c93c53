-- ===== src/Ipc/Attachment.antt =====
-- shmop.c: attach shared memory, and store a string into it or show what it holds.
use cs507_unix_programming.Prelude.{
  ℕ, zero, suc, ◌+◌, ◌-◌, ◌%◌, ◌^◌, List, [], ◌∷◌, ◌++◌, Bool, true, false, if◌then◌else◌, ◌==◌,
  ltb, leb, ◌&&◌, ◌||◌, Option, none, some, Bytes, length, take, drop, get_or, str_eq, c_string,
}

-- The "sanity maintainer" for the number of attachments, and of detachments.
abbrev pub between_1_and_4 : ℕ → ℕ
between_1_and_4 n = if n == 0 then 1 else (if ltb 4 n then 4 else n)

-- `(char *) (int) shmat(...)`, with pointers of 64 bits: the lower half, with its sign.
unfoldable pub through_int : (address : ℕ) → ℕ
through_int address =
    let low = address % 2 ^ 32 in if ltb low (2 ^ 31) then low else 2 ^ 64 - 2 ^ 32 + low

-- The loop of the attachments over what shmat answers; `shmaddr` is that of the last success.
unfoldable pub attach : (shmaddr : Option ℕ) → List (Option ℕ) → Option ℕ
unfolding through_int
attach shmaddr [] = shmaddr
attach shmaddr (none ∷ replies) = attach shmaddr replies
attach shmaddr (some address ∷ replies) = attach (some (through_int address)) replies

unfoldable pub attached : (attach_count : ℕ) → List (Option ℕ) → Option ℕ
unfolding attach
attached count replies = attach none (take (between_1_and_4 count) replies)

-- isspace(3)
abbrev pub is_space : ℕ → Bool
is_space c = c == b' ' || (leb 9 c && leb c 13)

-- The loop that goes back from the end of `buf`, with the number of characters before `b + 1`.
unfoldable pub strip_from : (n : ℕ) → Bytes → Bytes
strip_from zero buf = buf
strip_from (suc n) buf =
    let rest = strip_from n (take n buf) in if is_space (get_or buf n 0) then rest else buf

unfoldable pub strip : Bytes → Bytes
unfolding strip_from
strip buf = strip_from (length buf) buf

-- The loop that asks for a string, over the lines behind the first, which is thrown away. `none`:
-- it asks on at the end of the input.
unfoldable pub ask : List Bytes → Option Bytes
unfolding strip
ask [] = none
ask (line ∷ lines) =
    let more = ask lines in let buf = strip line in if leb (length buf) 0 then more else some buf

-- What the segment holds behind the response, and what is shown of it.
abbrev pub stored : (buf mem : Bytes) → Bytes
stored buf mem = if str_eq buf (b'?' ∷ []) then mem else buf ++ 0 ∷ drop (length buf + 1) mem

pub record Served : Type 0 where
  pub mem : Bytes
  pub shown : Bytes

abbrev pub served : Bytes → Served
served mem = record { mem = mem; shown = c_string mem }

abbrev pub answer : (mem : Bytes) → Option Bytes → Option Served
answer mem none = none
answer mem (some buf) = some (served (stored buf mem))

-- The block for an attached segment.
unfoldable pub serve : List Bytes → (mem : Bytes) → Option Served
unfolding ask
serve lines mem = answer mem (ask lines)

-- `shmflg`: the bits SHM_RND and SHM_RDONLY.
pub record Shmflg : Type 0 where
  pub rnd : Bool
  pub rdonly : Bool

-- The system calls, with their arguments.
pub data Call : Type 0 where
  shmat : (shmid addr : ℕ) → Shmflg → Call
  shmdt : (addr : ℕ) → Call

-- What is entered for an attachment.
pub record Entry : Type 0 where
  pub shmid : ℕ
  pub addr : ℕ
  pub flags : ℕ

-- The switch over the flags; for another number the variable stays as it is.
abbrev pub shmflg_of : (flags : ℕ) → (shmflg : Shmflg) → Shmflg
shmflg_of flags shmflg =
    if flags == 1
    then record { rnd = true; rdonly = false }
    else if flags == 2
    then record { rnd = false; rdonly = true }
    else if flags == 3
    then record { rnd = true; rdonly = true }
    else shmflg

-- The calls of the loop of the attachments.
abbrev pub attach_calls : (shmflg : Shmflg) → List Entry → List Call
attach_calls shmflg [] = []
attach_calls shmflg (e ∷ es) =
    shmat e.shmid e.addr (shmflg_of e.flags shmflg) ∷ attach_calls (shmflg_of e.flags shmflg) es

-- The calls of the loop of the detachments. What shmdt answers is only shown.
abbrev pub detach_calls : (addrs : List ℕ) → List Call
detach_calls [] = []
detach_calls (addr ∷ addrs) = shmdt addr ∷ detach_calls addrs

abbrev pub map_some : Option Served → Option (Option Served)
map_some none = none
map_some (some s) = some (some s)

-- The block in the middle, if `shmaddr` is not NULL.
abbrev pub use_segment : (shmaddr : Option ℕ) → List Bytes → (mem : Bytes) → Option (Option Served)
use_segment none lines mem = some none
use_segment (some address) lines mem =
    if address == 0 then some none else map_some (serve lines mem)

-- `main`: the calls, and what became of the memory and was shown of it, if it was attached; none
-- where it asks on for a string. `stale` is what shmflg happens to hold.
unfoldable pub main :
    (stale : Shmflg) (attach_count : ℕ) (entries : List Entry) (replies : List (Option ℕ))
    (lines : List Bytes) (mem : Bytes) (detach_count : ℕ) (addrs : List ℕ)
    → Option (List Call × Option Served)
unfolding serve attached
main stale attach_count entries replies lines mem detach_count addrs =
    elim (use_segment (attached attach_count replies) lines mem) [
      | none ↦ none
      | some shown ↦ some (
        attach_calls stale (take (between_1_and_4 attach_count) entries)
            ++ detach_calls (take (between_1_and_4 detach_count) addrs),
        shown,
      )
    ]
