-- ===== src/Lessons/Tests.antt =====
-- The theorems on the programs of examples02 at concrete arguments.
use cs507_unix_programming.Prelude.{◌+◌, [], ◌∷◌, Bytes, some, ◌≡◌}
use cs507_unix_programming.Lessons.Factorial.{f1, int, factorial, f1-factorial}
use cs507_unix_programming.Lessons.Joining.{method1, method2, calloc, joined, methods_agree}

f1-factorial_example : f1 3 ≡ int (factorial 5 + factorial 4)
f1-factorial_example = f1-factorial 3

abbrev hi : Bytes
hi = b'h' ∷ b'i' ∷ []

abbrev you : Bytes
you = b'y' ∷ b'o' ∷ b'u' ∷ []

methods_agree_example :
    (method1 hi you (calloc hi you) ≡ some (joined hi you))
    × (method2 hi you (calloc hi you) ≡ some (joined hi you))
methods_agree_example = methods_agree hi you
