-- ===== src/Memmap/System.antt =====
-- The process that makes the semaphores and the one that joins it, interleaved in any order.
use cs507_unix_programming.Prelude.{ℕ, List, [], ◌∷◌, ◌++◌, true, some, Bytes, ◌≡◌, c_string}
use cs507_unix_programming.Memmap.{Shared, Instr, show, exec}

pub record Process : Type 0 where
  pub rest : List Instr
  pub shown : List Bytes

pub record System : Type 0 where
  pub mem : Shared
  pub maker : Process
  pub joiner : Process

-- The lines that a process has shown once it has made the call.
abbrev pub shown_by : Instr → Shared → List Bytes → List Bytes
shown_by show m l = l ++ c_string m.membuf ∷ []
shown_by i m l = l

pub data Step (s : System) : System → Type 0 where
  maker_steps :
      {i : Instr} {r : List Instr} {m : Shared}
      → s.maker.rest ≡ i ∷ r
      → exec i s.mem ≡ some m
      → Step s (record s {
        mem = m;
        maker = record { rest = r; shown = shown_by i s.mem s.maker.shown };
      })
  joiner_steps :
      {i : Instr} {r : List Instr} {m : Shared}
      → s.joiner.rest ≡ i ∷ r
      → exec i s.mem ≡ some m
      → Step s (record s {
        mem = m;
        joiner = record { rest = r; shown = shown_by i s.mem s.joiner.shown };
      })

pub data Reach (s : System) : System → Type 0 where
  here : Reach s s
  later : {t u : System} → Reach s t → Step t u → Reach s u

abbrev pub process : List Instr → Process
process r = record { rest = r; shown = [] }

abbrev pub system : ℕ × ℕ → Bytes → List Instr → List Instr → System
system v mem p q = record {
  mem = record { a = v.0; b = v.1; alive = true; membuf = mem };
  maker = process p;
  joiner = process q;
}
