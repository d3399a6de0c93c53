-- ===== src/Memmap/Tests.antt =====
-- The theorems on memmapA.c at concrete inputs, and tests by evaluation.
use cs507_unix_programming.Prelude.{
  ◌∷◌, [], List, Bytes, true, false, replicate, length, arith, ◌≡◌, refl, c_string,
}
use cs507_unix_programming.Memmap.{show, sleep, down, up, remove, sem_b, Host, program, copy_args}
use cs507_unix_programming.Memmap.System.{System, process}
use cs507_unix_programming.Memmap.Text.{joined, copy_args-fits}

abbrev no_map : Host
no_map = record { first = true; joins = true; opens = true; writes = true; maps = false }

abbrev joining : Host
joining = record { first = false; joins = true; opens = true; writes = true; maps = true }

abbrev memmap_a : Bytes
memmap_a = b'm' ∷ b'A' ∷ []

abbrev small : Bytes
small = replicate 8 0

abbrev words : List Bytes
words = (b'h' ∷ b'i' ∷ []) ∷ (b'y' ∷ []) ∷ []

-- memmapA has sent, and is asleep.
abbrev has_sent : System
has_sent = record {
  mem = record { a = 1; b = 1; alive = true; membuf = copy_args words small 0 };
  maker = process (sleep 5 ∷ down sem_b ∷ show ∷ up sem_b ∷ sleep 2 ∷ remove ∷ []);
  joiner = process (program false false words);
}

copy_args-fits_example :
    (c_string (copy_args words small 0) ≡ joined words)
    × (length (copy_args words small 0) ≡ length small)
copy_args-fits_example =
    copy_args-fits (b'h' ∷ b'i' ∷ []) ((b'y' ∷ []) ∷ []) small (omega arith) (omega arith)

fits_in_buffer :
    copy_args words (replicate 8 b'x') 0 ≡ b'h' ∷ b'i' ∷ b' ' ∷ b'y' ∷ b' ' ∷ 0 ∷ b'x' ∷ b'x' ∷ []
unfolding copy_args
fits_in_buffer = refl
