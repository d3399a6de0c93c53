-- ===== src/Prelude/Text.antt =====
-- C strings as lists of bytes: strcmp(3), and the bytes before the terminating NUL.
use Prim.Native.Nat.{ℕ}
use mathlib.Core.Path.{◌≡◌, refl}
use mathlib.Core.Bool.{Bool, true, false, ◌&&◌}
use mathlib.Core.List.{List, [], ◌∷◌, ◌++◌}
use mathlib.Core.Logic.{◌≢◌}
use native.Mathlib.Omega.{arith}
use cs507_unix_programming.Prelude.Tests.{◌==◌, if◌then◌else◌}
use cs507_unix_programming.Prelude.Lists.{All}

-- `!strcmp(s, t)`
abbrev pub str_eq : List ℕ → List ℕ → Bool
str_eq [] [] = true
str_eq [] (c ∷ t) = false
str_eq (c ∷ s) [] = false
str_eq (c ∷ s) (d ∷ t) = c == d && str_eq s t

-- What `%s` prints of a block.
abbrev pub c_string : List ℕ → List ℕ
c_string [] = []
c_string (c ∷ s) = if c == 0 then [] else c ∷ c_string s

abbrev pub NoNul : List ℕ → Type 0
NoNul = All (λ c. c ≢ 0)

pub c_string-append : (s t : List ℕ) → NoNul s → c_string (s ++ 0 ∷ t) ≡ s
c_string-append [] t h = refl
c_string-append (c ∷ s) t h = ground (arith, c_string-append s t h.1, h.0)

pub c_string-through : (s t : List ℕ) → NoNul s → c_string (s ++ t) ≡ s ++ c_string t
c_string-through [] t h = refl
c_string-through (c ∷ s) t h = ground (arith, c_string-through s t h.1, h.0)
