-- ===== src/Lockshow/Tests.antt =====
-- The theorem on hw05soln.c with a lock on the byte 1 of the file.
use cs507_unix_programming.Prelude.{[], ◌∷◌, ◌≡◌, ◌<◌, ◌==◌, refl, arith, length}
use cs507_unix_programming.Lockshow.{Buffers, empty_buffers, fgets_into, split}
use cs507_unix_programming.Lockshow.Split.{line_at, split-divides}

abbrev line : Buffers
line = record empty_buffers { buf = fgets_into (b'a' ∷ b'b' ∷ b'\n' ∷ []) empty_buffers.buf }

in_buffer : 1 < length empty_buffers.lbuf
in_buffer = omega arith

split-divides_example : line_at (split (λ i. i == 1) 0 0 80 line) 1 ≡ (b'b', b'b', b' ')
split-divides_example =
    split-divides (λ i. i == 1) 0 80 line 1 (omega arith) refl in_buffer in_buffer
