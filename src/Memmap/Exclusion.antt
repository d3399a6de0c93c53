-- ===== src/Memmap/Exclusion.antt =====
-- With memmapA started first, no process writes the shared memory while the other shows it.
use cs507_unix_programming.Prelude.{ℕ, ◌+◌, List, [], ◌∷◌, true, false, Bytes, ◌≡◌, ◌⊎◌}
use cs507_unix_programming.Memmap.{
  Sem, sem_a, sem_b, Instr, down, up, raise_both, value_of, program,
}
use cs507_unix_programming.Memmap.System.{System, system}

abbrev is : Sem → Sem → ℕ
is sem_a sem_a = 1
is sem_b sem_b = 1
is _ _ = 0

abbrev ups_of : Sem → Instr → ℕ
ups_of x (up y) = is x y
ups_of x raise_both = 1
ups_of x _ = 0

abbrev downs_of : Sem → Instr → ℕ
downs_of x (down y) = is x y
downs_of x _ = 0

-- What a process will still add to a semaphore, and take from it.
abbrev pub ups : Sem → List Instr → ℕ
ups x [] = 0
ups x (i ∷ r) = ups_of x i + ups x r

abbrev pub downs : Sem → List Instr → ℕ
downs x [] = 0
downs x (i ∷ r) = downs_of x i + downs x r

-- A semaphore together with what is still to come is constant, up to the removal of the set.
abbrev pub Balanced : Sem → ℕ → System → Type 0
Balanced x k s =
    s.mem.alive ≡ true
    → value_of x s.mem + ups x s.maker.rest + ups x s.joiner.rest
      ≡ k + downs x s.maker.rest + downs x s.joiner.rest

-- What is left of a program.
abbrev pub Suffix : List Instr → List Instr → Type 0
Suffix r [] = r ≡ []
Suffix r (i ∷ p) = (r ≡ i ∷ p) ⊎ Suffix r p

record Inv (p q : List Instr) (ka kb : ℕ) (s : System) : Type 0 where
  maker_suffix : Suffix s.maker.rest p
  joiner_suffix : Suffix s.joiner.rest q
  balanced_a : Balanced sem_a ka s
  balanced_b : Balanced sem_b kb s

-- The system of a memmapA started first, and a process that joins it.
abbrev pub a_first : Bytes → (args joiner_args : List Bytes) → System
a_first mem args joiner_args =
    system (1, 0) mem (program true true args) (program false false joiner_args)
