-- ===== src/Ipc/Control.antt =====
-- semctl.c: commands on a semaphore set.
use cs507_unix_programming.Prelude.{
  ℕ, zero, suc, ◌+◌, ◌%◌, ◌^◌, List, [], ◌∷◌, Bool, if◌then◌else◌, ◌==◌, leb, take,
}

-- `ushort array[25]`
abbrev pub max_sems : ℕ
max_sems = 25

-- `struct semid_ds`
pub record SemidDs : Type 0 where
  pub uid : ℕ
  pub gid : ℕ
  pub mode : ℕ
  pub nsems : ℕ
  pub otime : ℕ
  pub ctime : ℕ

-- A call of semctl(2).
pub data Ctl : Type 0 where
  getval getncnt getzcnt : (semnum : ℕ) → Ctl
  setval : (semnum val : ℕ) → Ctl
  getpid getall ipc_stat ipc_rmid : Ctl
  setall : (array : List ℕ) → Ctl
  ipc_set : SemidDs → Ctl

-- Whether it returns -1, what it returns else, and what it stores where `semun` points.
pub record Answer : Type 0 where
  pub fails : Bool
  pub ret : ℕ
  pub buf : SemidDs
  pub array : List ℕ

pub data Line : Type 0 where
  number : (fails : Bool) (ret : ℕ) → Line  -- a -1 is shown as a number
  values : List ℕ → Line
  status : SemidDs → Line
  system_call_failed was_successful : Line

pub data Run : Type 0 where
  undefined : Run  -- behind `array`
  exits : Run  -- error XTDIO_ERROR
  shows : List Line → Run

-- What is done with the kernel's state, and what is shown.
pub record Done {ℓ} (K : Type ℓ) : Type ℓ where
  pub run : Run
  pub kernel : K

-- Behind PROBLEM.
abbrev pub verdict : (fails : Bool) → Line
verdict fails = if fails then system_call_failed else was_successful

-- The numbers that scanf reads for SETALL, as `ushort`; `scan i` is the i-th number of the run.
abbrev pub entered : (scan : ℕ → ℕ) → (left i : ℕ) → List ℕ
entered scan zero i = []
entered scan (suc n) i = scan i % 2 ^ 16 ∷ entered scan n (i + 1)

module _ {ℓ} {K : Type ℓ} (semctl : Ctl → K → Answer × K) where
  abbrev pub done : Run → K → Done K
  done r k = record { run = r; kernel = k }

  -- One call, and the number that it returns, shown or not.
  abbrev pub show_number : Ctl → K → Done K
  show_number c k =
      let a = semctl c k in done (shows (number a.0.fails a.0.ret ∷ verdict a.0.fails ∷ [])) a.1

  abbrev pub just : Ctl → K → Done K
  just c k = let a = semctl c k in done (shows (verdict a.0.fails ∷ [])) a.1

  abbrev pub show_status : K → Done K
  show_status k =
      let a = semctl ipc_stat k in done (shows (status a.0.buf ∷ verdict a.0.fails ∷ [])) a.1

  -- GETALL, with the values up to `length`.
  abbrev pub get_values : (length : ℕ) → K → Done K
  get_values length k =
      let a = semctl getall k in
      done
        (if a.0.fails
          then shows (system_call_failed ∷ [])
          else shows (values (take length a.0.array) ∷ was_successful ∷ []))
        a.1

  -- What needs the status first, and goes to PROBLEM without it.
  abbrev pub with_status : (SemidDs → K → Done K) → K → Done K
  with_status f k =
      let a = semctl ipc_stat k in
      if a.0.fails then done (shows (system_call_failed ∷ [])) a.1 else f a.0.buf a.1

  -- Within `array`.
  abbrev pub within : (length : ℕ) → Done K → K → Done K
  within length d k = if leb length max_sems then d else done undefined k

  abbrev pub changed : (choice value : ℕ) → SemidDs → K → Done K
  changed choice value ds k =
      if choice == 1
      then just (ipc_set (record ds { uid = value })) k
      else (if choice == 2
          then just (ipc_set (record ds { gid = value })) k
          else (if choice == 3
              then just (ipc_set (record ds { mode = value })) k
              else done exits k))

  -- The program, behind the number of the set. `scan 0` is the command.
  unfoldable pub main : (scan : ℕ → ℕ) → K → Done K
  main scan k =
      let cmd = scan 0 in
      if cmd == 1
      then show_number (getval (scan 1)) k
      else (if cmd == 2
          then just (setval (scan 1) (scan 2)) k
          else (if cmd == 3
              then show_number getpid k
              else (if cmd == 4
                  then show_number (getncnt (scan 1)) k
                  else (if cmd == 5
                      then show_number (getzcnt (scan 1)) k
                      else (if cmd == 6
                          then with_status (λ ds k'. within ds.nsems (get_values ds.nsems k') k') k
                          else (if cmd == 7
                              then with_status
                                  (λ ds k'.
                                    within ds.nsems (just (setall (entered scan ds.nsems 1)) k') k')
                                  k
                              else (if cmd == 8
                                  then show_status k
                                  else (if cmd == 9
                                      then with_status (λ ds k'. changed (scan 1) (scan 2) ds k') k
                                      else (if cmd == 10
                                          then just ipc_rmid k
                                          else done exits k)))))))))
