-- ===== src/Opening/Using.antt =====
-- What main does with the file, by the letters.

use cs507_unix_programming.Prelude.{
  ℕ, List, [], ◌∷◌, ◌++◌, Bool, true, not, ◌&&◌, ◌||◌, Bytes, map, if◌then◌else◌,
}
use cs507_unix_programming.Opening.{strchr, Call, reads, writes, closes, texts_of}
use cs507_unix_programming.Opening.Permissions.{adjacent}

-- As many successful writes as there are texts.
abbrev pub successes : List Bytes → List Bool
successes [] = []
successes (text ∷ texts) = true ∷ successes texts

-- What the letters ask for: a read without a w, a write with a w and no r, or with c and Wu.
abbrev pub asks_read : Bytes → Bool
asks_read arg = not (strchr arg b'w')

abbrev pub asks_write : Bytes → Bool
asks_write arg =
    (strchr arg b'w' && not (strchr arg b'r')) || (strchr arg b'c' && adjacent b'W' b'u' arg)

abbrev pub expected : (arg : Bytes) → (more : List Bytes) → (fd : ℕ) → List Call
expected arg more fd =
    (if asks_read arg then reads 18 ∷ [] else [])
    ++ ((if asks_write arg then map writes (texts_of more) else []) ++ (closes fd ∷ []))
