-- ===== src/Ipc/Get.antt =====
-- msgget.c, semget.c and shmget.c.
use cs507_unix_programming.Prelude.{ℕ, Bool, true, false, if◌then◌else◌, ◌==◌}

-- `opperm_flags`: the permissions, and whether IPC_CREAT and IPC_EXCL are set.
pub record Oflags : Type 0 where
  pub opperm : ℕ
  pub creat : Bool
  pub excl : Bool

-- The switch, the same in the three programs; for another number the variable keeps what it
-- happens to hold.
abbrev pub opperm_flags : (flags opperm : ℕ) (stale : Oflags) → Oflags
opperm_flags flags opperm stale =
    if flags == 0
    then record { opperm = opperm; creat = false; excl = false }
    else (if flags == 1
        then record { opperm = opperm; creat = true; excl = false }
        else (if flags == 2
            then record { opperm = opperm; creat = false; excl = true }
            else (if flags == 3
                then record { opperm = opperm; creat = true; excl = true }
                else stale)))

-- What the program shows at its end.
pub data Shown : Type 0 where
  call_failed : Shown
  id_is : ℕ → Shown

pub data Reply : Type 0 where
  fails : Reply
  gives : ℕ → Reply

abbrev pub shown : Reply → Shown
shown fails = call_failed
shown (gives n) = id_is n

unfoldable pub msgget :
    (kernel : (key : ℕ) → Oflags → Reply) → (stale : Oflags) → (key opperm flags : ℕ) → Shown
msgget kernel stale key opperm flags = shown (kernel key (opperm_flags flags opperm stale))

unfoldable pub semget :
    (kernel : (key nsems : ℕ) → Oflags → Reply)
    → (stale : Oflags) → (key opperm flags nsems : ℕ) → Shown
semget kernel stale key opperm flags nsems =
    shown (kernel key nsems (opperm_flags flags opperm stale))

unfoldable pub shmget :
    (kernel : (key size : ℕ) → Oflags → Reply)
    → (stale : Oflags) → (key opperm flags size : ℕ) → Shown
shmget kernel stale key opperm flags size =
    shown (kernel key size (opperm_flags flags opperm stale))
