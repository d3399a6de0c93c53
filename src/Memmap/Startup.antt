-- ===== src/Memmap/Startup.antt =====
-- How `main` of memmapA.c gets its part, and what it leaves behind when it fails.
use cs507_unix_programming.Prelude.{ℕ, Bool, true, false, Option, none, Bytes, ◌≡◌, arith}
use cs507_unix_programming.Memmap.{setup, Host, dies, ready}

-- If the process that made the semaphores exits in its setup, it has removed them.
pub setup-dies :
    (h : Host) (argv0 : Bytes) {removed : Bool}
    → h.first ≡ true
    → setup h argv0 ≡ dies removed
    → removed ≡ true
unfolding setup
setup-dies h argv0 e d = ground arith

-- A process that finds the semaphores made and gets through its setup never takes the part of
-- memmapA, whatever its name, does not count as the initializer, and sets no semaphore.
pub setup-joins :
    (h : Host) (argv0 : Bytes) {is_a did_init : Bool} {v : Option (ℕ × ℕ)}
    → h.first ≡ false
    → setup h argv0 ≡ ready is_a did_init v
    → (is_a ≡ false) × (did_init ≡ false) × (v ≡ none)
unfolding setup
setup-joins h argv0 e d = ground arith
