-- ===== src/Memmap/Races.antt =====
-- What the semaphores do not prevent.
use cs507_unix_programming.Prelude.{List, [], ◌∷◌, true, false, Bytes, ◌≡◌, refl, c_string}
use cs507_unix_programming.Memmap.{Instr, show, fill, exec, program, copy_args}
use cs507_unix_programming.Memmap.System.{
  System, maker_steps, joiner_steps, Reach, here, later, system,
}
use cs507_unix_programming.Memmap.Exclusion.{a_first}

-- For any memory and arguments there is a reachable state in which memmapA, started first, has
-- shown its own arguments, and the other process has shown nothing.
pub shows_itself :
    (mem : Bytes) (args joiner_args : List Bytes)
    → (s : System) × Reach (a_first mem args joiner_args) s
      × (s.maker.shown ≡ c_string (copy_args args mem 0) ∷ [])
      × (s.joiner.shown ≡ [])
unfolding program exec
shows_itself mem args joiner_args = (
  _,
  later
      (later
        (later
          (later (later (later here (maker_steps refl refl)) (maker_steps refl refl))
            (maker_steps refl refl))
          (maker_steps refl refl))
        (maker_steps refl refl))
      (maker_steps refl refl),
  refl,
  refl,
)

-- Where a process of another name is started first there is a reachable state in which it is
-- about to show the memory while the process that joins is about to write it.
pub shows_while_written :
    (mem : Bytes) (args joiner_args : List Bytes)
    → (s : System) × Reach
        (system (0, 1) mem (program false true args) (program false false joiner_args))
        s
      × ((q : List Instr) × (s.maker.rest ≡ show ∷ q))
      × ((r : List Instr) × (s.joiner.rest ≡ fill joiner_args ∷ r))
unfolding program exec
shows_while_written mem args joiner_args = (
  _,
  later
      (later
        (later
          (later
            (later
              (later
                (later (later (later here (maker_steps refl refl)) (maker_steps refl refl))
                  (maker_steps refl refl))
                (maker_steps refl refl))
              (joiner_steps refl refl))
            (joiner_steps refl refl))
          (joiner_steps refl refl))
        (joiner_steps refl refl))
      (maker_steps refl refl),
  (_, refl),
  (_, refl),
)
