-- ===== src/Exercises/Tests.antt =====
-- The theorems on the exercises: at a process in a long directory, and at two small matrices.
use cs507_unix_programming.Prelude.{List, [], ◌∷◌, Bytes, some}
use cs507_unix_programming.Exercises.Walk.{Host, Entry}
use cs507_unix_programming.Exercises.Product

abbrev one_file : List Entry
one_file = record { d_type = 8; d_name = b'f' ∷ [] } ∷ []

abbrev at : Bytes → Host
at path = record { opendir = λ p. some one_file; working = path; failed_getcwd = λ b. b }

abbrev long_path : Bytes
long_path = b'/' ∷ b'u' ∷ b's' ∷ b'r' ∷ b'/' ∷ b'l' ∷ b'i' ∷ b'b' ∷ []
