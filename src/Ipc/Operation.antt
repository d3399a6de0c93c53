-- ===== src/Ipc/Operation.antt =====
-- semop.c: operations on a semaphore set.
use cs507_unix_programming.Prelude.{
  ℕ, ◌+◌, ◌%◌, ◌^◌, List, [], ◌∷◌, ◌++◌, Bool, true, false, if◌then◌else◌, ◌==◌, ltb, Option, none,
  some,
}

-- `sembuf[10]`
abbrev pub max_ops : ℕ
max_ops = 10

-- `struct sembuf`, with the 16 bits of `sem_num` and `sem_op`.
pub record Sembuf : Type 0 where
  pub sem_num : ℕ
  pub sem_op : ℕ
  pub nowait : Bool
  pub undo : Bool

-- The numbers that are entered for an operation; `op` is what atoi(3) gives, modulo 2 ^ 32.
pub record Entry : Type 0 where
  pub num : ℕ
  pub op : ℕ
  pub flags : ℕ

pub data Outcome : Type 0 where
  undefined : Outcome  -- a write behind `sembuf`
  exits : Outcome  -- error XTDIO_ERROR
  calls : (semid : ℕ) → List Sembuf → Outcome

-- The switch over the flags.
abbrev pub flags_of : ℕ → Option (Bool × Bool)
flags_of flags =
    if flags == 0
    then some (false, false)
    else (if flags == 1
        then some (true, false)
        else (if flags == 2
            then some (false, true)
            else (if flags == 3 then some (true, true) else none)))

abbrev pub sembuf_of : Entry → Bool × Bool → Sembuf
sembuf_of e f = record {
  sem_num = e.num % 2 ^ 16;
  sem_op = e.op % 2 ^ 16;
  nowait = f.0;
  undo = f.1;
}

-- The rest of a round, behind the switch.
abbrev pub and_next : Option (Bool × Bool) → (Bool × Bool → Outcome) → Outcome
and_next none next = exits
and_next (some f) next = next f

-- The loop over the operations, with those so far. The entries are as many as `nsops`.
unfoldable pub enter : (semid i : ℕ) (ops : List Sembuf) → List Entry → Outcome
enter semid i ops [] = calls semid ops
enter semid i ops (e ∷ es) =
    let round =
      and_next (flags_of e.flags) (λ f. enter semid (i + 1) (ops ++ sembuf_of e f ∷ []) es) in
    if ltb i max_ops then round else undefined

unfoldable pub main : (semid : ℕ) → List Entry → Outcome
unfolding enter
main semid entries = enter semid 0 [] entries
