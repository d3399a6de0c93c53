-- ===== src/Ipc/Controlling.antt =====
-- Values that semctl.c sets it shows again.
use cs507_unix_programming.Prelude.{ℕ, ◌<◌, List, false, length, All, ◌≡◌}
use cs507_unix_programming.Ipc.Control.{Ctl, setall, getall, ipc_stat, Answer}

-- semctl(2) on a set of that many semaphores: IPC_STAT gives their number and changes nothing,
-- and values in range that SETALL is given GETALL gives back.
pub record Keeps {ℓ} {K : Type ℓ} (semctl : Ctl → K → Answer × K) (nsems : K → ℕ) : Type ℓ where
  pub stat_succeeds : (k : K) → (semctl ipc_stat k).0.fails ≡ false
  pub stat_counts : (k : K) → (semctl ipc_stat k).0.buf.nsems ≡ nsems k
  pub stat_leaves : (k : K) → (semctl ipc_stat k).1 ≡ k
  pub set_succeeds :
      (vs : List ℕ) (k : K)
      → length vs ≡ nsems k
      → All (λ v. v < 32768) vs
      → (semctl (setall vs) k).0.fails ≡ false
  pub set_counts : (vs : List ℕ) (k : K) → nsems (semctl (setall vs) k).1 ≡ nsems k
  pub get_succeeds : (k : K) → (semctl getall k).0.fails ≡ false
  pub get_set :
      (vs : List ℕ) (k : K)
      → length vs ≡ nsems k
      → All (λ v. v < 32768) vs
      → (semctl getall (semctl (setall vs) k).1).0.array ≡ vs
