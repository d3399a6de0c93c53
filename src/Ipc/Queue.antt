-- ===== src/Ipc/Queue.antt =====
-- msgctl.c: commands on a message queue.
use cs507_unix_programming.Prelude.{ℕ, List, [], ◌∷◌, Bool, ◌||◌, if◌then◌else◌, ◌==◌}

-- The members of `struct msqid_ds` that the program shows or changes.
pub record MsqidDs : Type 0 where
  pub uid : ℕ
  pub gid : ℕ
  pub mode : ℕ
  pub qbytes : ℕ

-- A call of msgctl(2).
pub data Ctl : Type 0 where
  ipc_stat ipc_rmid : Ctl
  ipc_set : MsqidDs → Ctl

-- Whether it returns -1, and what `buf` points to then.
pub record Answer : Type 0 where
  pub fails : Bool
  pub buf : MsqidDs

pub data Line : Type 0 where
  members : MsqidDs → Line
  changed_to : ℕ → Line
  call_failed was_successful : Line

pub record Done {ℓ} (K : Type ℓ) : Type ℓ where
  pub lines : List Line
  pub kernel : K

abbrev pub verdict : (fails : Bool) → Line
verdict fails = if fails then call_failed else was_successful

-- The inner switch: the member that was chosen, or none for another number.
abbrev pub change : (choice value : ℕ) → MsqidDs → MsqidDs
change choice value ds =
    if choice == 1
    then record ds { uid = value }
    else (if choice == 2
        then record ds { gid = value }
        else (if choice == 3
            then record ds { mode = value }
            else (if choice == 4 then record ds { qbytes = value } else ds)))

-- Whether a member was shown as changed.
abbrev pub notes : (choice value : ℕ) → List Line → List Line
notes choice value rest =
    if choice == 1 || choice == 2 || choice == 3 || choice == 4
    then changed_to value ∷ rest
    else rest

module _ {ℓ} {K : Type ℓ} (msgctl : Ctl → K → Answer × K) where
  abbrev pub stat : K → Done K
  stat k =
      let a = msgctl ipc_stat k in
      record { lines = members a.0.buf ∷ verdict a.0.fails ∷ []; kernel = a.1 }

  -- Whether IPC_STAT fails is not looked at.
  abbrev pub set_member : (choice value : ℕ) → K → Done K
  set_member choice value k =
      let a = msgctl ipc_stat k in
      let b = msgctl (ipc_set (change choice value a.0.buf)) a.1 in
      record { lines = members a.0.buf ∷ notes choice value (verdict b.0.fails ∷ []); kernel = b.1 }

  abbrev pub remove : K → Done K
  remove k = let a = msgctl ipc_rmid k in record { lines = verdict a.0.fails ∷ []; kernel = a.1 }

  -- The switch; for another command `rtrn`, which is not set, decides what is shown.
  unfoldable pub main : (stale : Bool) → (command choice value : ℕ) → K → Done K
  main stale command choice value k =
      if command == 1
      then stat k
      else (if command == 2
          then set_member choice value k
          else (if command == 3
              then remove k
              else record { lines = verdict stale ∷ []; kernel = k }))
