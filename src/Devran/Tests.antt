-- ===== src/Devran/Tests.antt =====
-- The theorems on devran.c at a concrete stream.
use cs507_unix_programming.Prelude.{ℕ, ◌∷◌, [], List}

abbrev bytes : List ℕ
bytes = 200 ∷ b'a' ∷ 7 ∷ b'b' ∷ b'c' ∷ []
