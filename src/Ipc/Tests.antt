-- ===== src/Ipc/Tests.antt =====
-- The theorems on the programs of example-ipc at concrete inputs.
use cs507_unix_programming.Prelude.{
  ◌+◌, ℕ, zero, suc, List, [], ◌∷◌, Bytes, false, ◌≡◌, refl, ◌^◌, ◌-◌,
}
use cs507_unix_programming.Ipc.Control
use cs507_unix_programming.Ipc.Control.{SemidDs, Ctl, setall, getall, Answer}
use cs507_unix_programming.Ipc.Message
use cs507_unix_programming.Ipc.Message.{Flags}
use cs507_unix_programming.Ipc.Operation.{Entry, exits, max_ops}
use cs507_unix_programming.Ipc.Operating.{verdict}

abbrev no_flags : Flags
no_flags = record { nowait = false; noerror = false }

abbrev hi : Bytes
hi = b'h' ∷ b'i' ∷ []

-- Semaphore 1 is lowered with SEM_UNDO, and then there is an entry with bad flags.
abbrev entries : List Entry
entries =
    record { num = 1; op = 2 ^ 32 - 1; flags = 2 } ∷ record { num = 0; op = 1; flags = 4 } ∷ []

verdict_exits : verdict 5 max_ops [] entries ≡ exits
verdict_exits = refl

-- A set of two semaphores.
abbrev two_sems : SemidDs
two_sems = record { uid = 0; gid = 0; mode = 0; nsems = 2; otime = 0; ctime = 0 }

abbrev answers : List ℕ → Answer
answers vs = record { fails = false; ret = 0; buf = two_sems; array = vs }

abbrev kernel : Ctl → List ℕ → Answer × List ℕ
kernel (setall vs) k = (answers [], vs)
kernel getall k = (answers k, k)
kernel c k = (answers [], k)

-- "7 3 4", and "6".
abbrev sets : ℕ → ℕ
sets zero = 7
sets (suc i) = i + 3

abbrev gets : ℕ → ℕ
gets i = 6
