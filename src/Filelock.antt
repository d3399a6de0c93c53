-- ===== src/Filelock.antt =====
-- hw5/filelock.c: `lock_reg` and `lock_test`, over what fcntl(2) does.
pub mod Testing
pub mod Session
pub mod Commands
pub mod Tests
use cs507_unix_programming.Prelude.{ℕ, Bool, true, false, Option, none, some, if◌then◌else◌}

pub data LockType : Type 0 where
  rdlck wrlck unlck : LockType

pub data Cmd : Type 0 where
  setlk setlkw getlk : Cmd

pub data Whence : Type 0 where
  seek_set seek_cur seek_end : Whence

-- `struct flock`
pub record Flock : Type 0 where
  pub l_type : LockType
  pub l_start : ℕ
  pub l_whence : Whence
  pub l_len : ℕ
  pub l_pid : ℕ

-- fcntl(2) on a descriptor: whether it fails, and the lock as it leaves it.
pub record Answer : Type 0 where
  pub fails : Bool
  pub lock : Flock

abbrev pub Fcntl : Type 0
Fcntl = Cmd → Flock → Answer

-- The lock request; `stale` is what the member `l_pid`, which is not set, happens to hold.
abbrev pub request : (stale : ℕ) → LockType → (offset : ℕ) → Whence → (len : ℕ) → Flock
request stale type offset whence len = record {
  l_type = type;
  l_start = offset;
  l_whence = whence;
  l_len = len;
  l_pid = stale;
}

-- `lock_reg`: whether it returns -1.
unfoldable pub lock_reg :
    Fcntl → (stale : ℕ) → Cmd → LockType → (offset : ℕ) → Whence → (len : ℕ) → Bool
lock_reg fcntl stale cmd type offset whence len =
    (fcntl cmd (request stale type offset whence len)).fails

owner_in : LockType → (l_pid : ℕ) → ℕ
owner_in unlck p = 0
owner_in type p = p

-- `lock_test`. A failure of fcntl(2) is printed, and the lock is looked at all the same.
unfoldable pub lock_test : Fcntl → (stale : ℕ) → LockType → (offset : ℕ) → Whence → (len : ℕ) → ℕ
unfolding owner_in
lock_test fcntl stale type offset whence len =
    let lock = (fcntl getlk (request stale type offset whence len)).lock in
    owner_in lock.l_type lock.l_pid
