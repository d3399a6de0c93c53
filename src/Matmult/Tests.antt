-- ===== src/Matmult/Tests.antt =====
-- The theorems on matmult.c at a product of natural numbers.
use cs507_unix_programming.Matmult.Threads.{count}
use cs507_unix_programming.Prelude.{ℕ, ◌<◌, ◌≤◌, ◌+◌, ◌*◌, ◌∷◌, [], List, arith, ◌≡◌, refl}
use cs507_unix_programming.Matmult.{DMatrix, dot, multiply, shows}
use cs507_unix_programming.Matmult.Product.{product, multiply-eq-product, multiply-shows}

abbrev one_to_four : DMatrix ℕ
one_to_four = record { mat = 0 ∷ 2 ∷ []; store = λ i. i + 1; rows = 2; cols = 2 }

abbrev squared : List (List ℕ)
squared = (7 ∷ 10 ∷ []) ∷ (15 ∷ 22 ∷ []) ∷ []

-- The second row's thread starts first.
multiply-eq-product_example :
    (one_to_four.cols ≡ one_to_four.rows)
    × (squared ≡ product 0 ◌+◌ ◌*◌ one_to_four one_to_four 0 one_to_four.rows)
unfolding multiply dot
multiply-eq-product_example =
    multiply-eq-product 0 ◌+◌ ◌*◌ one_to_four one_to_four (1 ∷ 0 ∷ 0 ∷ 1 ∷ []) refl

multiply-shows_example :
    multiply 0 ◌+◌ ◌*◌ one_to_four one_to_four (1 ∷ 0 ∷ 0 ∷ 1 ∷ [])
    ≡ shows (product 0 ◌+◌ ◌*◌ one_to_four one_to_four 0 one_to_four.rows)
multiply-shows_example =
    multiply-shows 0 ◌+◌ ◌*◌ one_to_four one_to_four (1 ∷ 0 ∷ 0 ∷ 1 ∷ []) refl fair
  where
    fair : (r : ℕ) → r < 2 → 2 ≤ count r (1 ∷ 0 ∷ 0 ∷ 1 ∷ [])
    fair r h = ground arith
