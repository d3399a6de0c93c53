-- ===== src/Uplister/Tests.antt =====
-- The theorems on uplister.c at concrete paths.
use cs507_unix_programming.Prelude.{◌∷◌, [], List, Bytes, Option, some, arith, ◌≡◌}
use cs507_unix_programming.Uplister.{DirEntry, main, root}
use cs507_unix_programming.Uplister.Ancestors.{path_of, ancestors, main-visited}

abbrev empty_dirs : Bytes → Option (List DirEntry)
empty_dirs d = some []

main-visited_example :
    (main empty_dirs (some (path_of ((b'b' ∷ []) ∷ (b'a' ∷ []) ∷ [])))).visited
    ≡ ancestors ((b'b' ∷ []) ∷ (b'a' ∷ []) ∷ [])
main-visited_example =
    main-visited empty_dirs (λ d e. cc) (b'b' ∷ []) ((b'a' ∷ []) ∷ []) (omega arith)

-- A working directory that is the root is listed twice.
root_twice : (main empty_dirs (some root)).visited ≡ root ∷ root ∷ []
root_twice = main-visited empty_dirs (λ d e. cc) [] [] (omega arith)
