-- ===== src/Ipc/Segment.antt =====
-- shmctl.c: commands on a shared memory segment.
use cs507_unix_programming.Prelude.{
  ℕ, List, [], ◌∷◌, Bool, false, ◌||◌, if◌then◌else◌, ◌==◌, ◌≡◌, ap, ◌∙◌,
}

-- The members of `struct shmid_ds` that the program changes, and the others that it shows: the
-- creator's, the size, the processes, the number of attachments and the times.
pub record ShmidDs : Type 0 where
  pub uid : ℕ
  pub gid : ℕ
  pub mode : ℕ
  pub others : List ℕ

-- A call of shmctl(2).
pub data Ctl : Type 0 where
  ipc_stat ipc_rmid shm_lock shm_unlock : Ctl
  ipc_set : ShmidDs → Ctl

-- Whether it returns -1, and what `buf` points to then.
pub record Answer : Type 0 where
  pub fails : Bool
  pub buf : ShmidDs

pub data Line : Type 0 where
  members : ShmidDs → Line
  changed_to : ℕ → Line
  call_failed was_successful : Line

pub record Done {ℓ} (K : Type ℓ) : Type ℓ where
  pub lines : List Line
  pub kernel : K

abbrev pub verdict : (fails : Bool) → Line
verdict fails = if fails then call_failed else was_successful

-- The inner switch, and the line that it shows for a member.
abbrev pub change : (choice value : ℕ) → ShmidDs → ShmidDs
change choice value ds =
    if choice == 1
    then record ds { uid = value }
    else if choice == 2
    then record ds { gid = value }
    else if choice == 3
    then record ds { mode = value }
    else ds

abbrev pub notes : (choice value : ℕ) → List Line → List Line
notes choice value rest =
    if choice == 1 || choice == 2 || choice == 3 then changed_to value ∷ rest else rest

module _ {ℓ} {K : Type ℓ} (shmctl : Ctl → K → Answer × K) where
  abbrev pub stat : K → Done K
  stat k =
      let a = shmctl ipc_stat k in
      record { lines = members a.0.buf ∷ verdict a.0.fails ∷ []; kernel = a.1 }

  -- Whether IPC_STAT fails is not looked at.
  abbrev pub set_member : (choice value : ℕ) → K → Done K
  set_member choice value k =
      let a = shmctl ipc_stat k in
      let b = shmctl (ipc_set (change choice value a.0.buf)) a.1 in
      record { lines = notes choice value (verdict b.0.fails ∷ []); kernel = b.1 }

  abbrev pub just : Ctl → K → Done K
  just c k = let a = shmctl c k in record { lines = verdict a.0.fails ∷ []; kernel = a.1 }

  -- The switch; for another command `rtrn`, which is not set, decides what is shown.
  unfoldable pub main : (stale : Bool) → (command choice value : ℕ) → K → Done K
  main stale command choice value k =
      if command == 1
      then stat k
      else if command == 2
      then set_member choice value k
      else if command == 3
      then just ipc_rmid k
      else if command == 4
      then just shm_lock k
      else if command == 5
      then just shm_unlock k
      else record { lines = verdict stale ∷ []; kernel = k }

-- Where the segment can be read and changed, as IPC_STAT and IPC_SET document it, a change of one
-- member is what the next IPC_STAT shows, with all other members as they were.
pub stat-set_member :
    {K : Type 0} (shmctl : Ctl → K → Answer × K) (status : K → ShmidDs) (stale : Bool)
    (choice value : ℕ) (k : K)
    → ((k : K) → shmctl ipc_stat k ≡ (record { fails = false; buf = status k }, k))
    → ((d : ShmidDs) (k : K) → status (shmctl (ipc_set d) k).1 ≡ d)
    → (main shmctl stale 1 choice value (main shmctl stale 2 choice value k).kernel).lines
      ≡ members (change choice value (status k)) ∷ was_successful ∷ []
unfolding main
stat-set_member {K} shmctl status stale choice value k h g =
    let first = h k in
    let changed =
      (shmctl (ipc_set (change choice value (shmctl ipc_stat k).0.buf)) (shmctl ipc_stat k).1).1 in
    ap (λ (a : Answer × K). members a.0.buf ∷ verdict a.0.fails ∷ []) (h changed)
    ∙ ap (λ d. members d ∷ was_successful ∷ [])
        (g (change choice value (shmctl ipc_stat k).0.buf) (shmctl ipc_stat k).1
          ∙ ap (λ (a : Answer × K). change choice value a.0.buf) first)
