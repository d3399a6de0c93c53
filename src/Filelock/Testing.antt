-- ===== src/Filelock/Testing.antt =====
-- What `lock_test` answers, given what F_GETLK is documented to do.
use cs507_unix_programming.Prelude.{ℕ, ◌<◌, Option, none, some, ◌≡◌, ◌≢◌, arith, ap, sym, ◌∙◌}
use cs507_unix_programming.Filelock.{
  LockType, unlck, getlk, Whence, Flock, Fcntl, request, lock_test,
}

-- F_GETLK: with no conflicting lock it sets the type to F_UNLCK, with one it describes that lock,
-- which has an owner and is no F_UNLCK.
pub record GetsLock (fcntl : Fcntl) (holder : Flock → Option ℕ) : Type 0 where
  pub free : (l : Flock) → holder l ≡ none → (fcntl getlk l).lock ≡ record l { l_type = unlck }
  pub held_pid : (l : Flock) (p : ℕ) → holder l ≡ some p → (fcntl getlk l).lock.l_pid ≡ p
  pub held_type : (l : Flock) (p : ℕ) → holder l ≡ some p → (fcntl getlk l).lock.l_type ≢ unlck
  pub positive : (l : Flock) (p : ℕ) → holder l ≡ some p → 0 < p

abbrev pub pid_or_zero : Option ℕ → ℕ
pid_or_zero none = 0
pid_or_zero (some p) = p

held :
    (fcntl : Fcntl) (stale : ℕ) (type : LockType) (offset : ℕ) (whence : Whence) (len p : ℕ)
    → (fcntl getlk (request stale type offset whence len)).lock.l_pid ≡ p
    → (fcntl getlk (request stale type offset whence len)).lock.l_type ≢ unlck
    → lock_test fcntl stale type offset whence len ≡ p
unfolding lock_test
held fcntl stale type offset whence len p e h = ground (arith, h)

-- If fcntl(2) leaves the request as it is, as when it fails, and the request is no F_UNLCK,
-- lock_test answers what its variable for the process id happened to hold.
pub lock_test-stale :
    (fcntl : Fcntl) (stale offset len : ℕ) (whence : Whence) (type : LockType)
    → type ≢ unlck
    → (fcntl getlk (request stale type offset whence len)).lock
      ≡ request stale type offset whence len
    → lock_test fcntl stale type offset whence len ≡ stale
lock_test-stale fcntl stale offset len whence type h e =
    held fcntl stale type offset whence len stale (ap (λ (l : Flock). l.l_pid) e)
      (λ q. h (sym (ap (λ (l : Flock). l.l_type) e) ∙ q))
