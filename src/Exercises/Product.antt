-- ===== src/Exercises/Product.antt =====
-- hw11/ioSample.c: a product of two matrices in a single thread. The numbers are natural, and small
-- enough for an int.
use cs507_unix_programming.Prelude.{
  ℕ, zero, suc, ◌+◌, ◌*◌, List, [], ◌∷◌, Option, none, some, if◌then◌else◌, ◌==◌,
}

abbrev pub Matrix : Type 0
Matrix = List (List ℕ)

abbrev pub and_then {ℓ κ} : {A : Type ℓ} {B : Type κ} → Option A → (A → Option B) → Option B
and_then none next = none
and_then (some a) next = next a

-- An element of an array; none behind its end.
abbrev pub nth {ℓ} : {A : Type ℓ} → List A → ℕ → Option A
nth [] k = none
nth (a ∷ xs) zero = some a
nth (a ∷ xs) (suc k) = nth xs k

abbrev pub at : Matrix → (i j : ℕ) → Option ℕ
at mat i j = and_then (nth mat i) (λ row. nth row j)

-- The loop over k, with the rounds left.
unfoldable pub add_products : (mat_a mat_b : Matrix) → (i j k left : ℕ) → (sum : ℕ) → Option ℕ
add_products mat_a mat_b i j k zero sum = some sum
add_products mat_a mat_b i j k (suc left) sum =
    and_then (at mat_a i k)
      (λ x. and_then (at mat_b k j) (λ y. add_products mat_a mat_b i j (k + 1) left (sum + x * y)))

-- The loop over j: the row of mat_c. `sum` is set back behind each element, not before the first.
unfoldable pub columns : (mat_a mat_b : Matrix) → (row_b i j left : ℕ) → (sum : ℕ) → Option (List ℕ)
columns mat_a mat_b row_b i j zero sum = some []
columns mat_a mat_b row_b i j (suc left) sum =
    and_then (add_products mat_a mat_b i j 0 row_b sum) (λ element.
      and_then (columns mat_a mat_b row_b i (j + 1) left 0) (λ rest. some (element ∷ rest)))

-- The loop over i.
unfoldable pub rows : (mat_a mat_b : Matrix) → (row_b col_b i left : ℕ) → (sum : ℕ) → Option Matrix
rows mat_a mat_b row_b col_b i zero sum = some []
rows mat_a mat_b row_b col_b i (suc left) sum =
    and_then (columns mat_a mat_b row_b i 0 col_b sum) (λ row.
      and_then (rows mat_a mat_b row_b col_b (i + 1) left (if col_b == 0 then sum else 0))
        (λ rest. some (row ∷ rest)))

-- The last loops: `left` rows of mat_c from the i-th on; none behind its end.
unfoldable pub show_rows : (mat_c : Matrix) → (i left : ℕ) → Option Matrix
show_rows mat_c i zero = some []
show_rows mat_c i (suc left) =
    and_then (nth mat_c i)
      (λ row. and_then (show_rows mat_c (i + 1) left) (λ rest. some (row ∷ rest)))

-- `main` behind the scans; `sum` is what the variable happens to hold. As many rows are shown as
-- mat_b has.
unfoldable pub main : (row_a row_b col_b : ℕ) → (mat_a mat_b : Matrix) → (sum : ℕ) → Option Matrix
main row_a row_b col_b mat_a mat_b sum =
    and_then (rows mat_a mat_b row_b col_b 0 row_a sum) (λ mat_c. show_rows mat_c 0 row_b)

-- The table of a function from the i-th row on, and of a function of two indices.
abbrev pub table {ℓ} : {A : Type ℓ} → (i left : ℕ) → (ℕ → A) → List A
table i zero f = []
table i (suc left) f = f i ∷ table (i + 1) left f

abbrev pub matrix : (n m : ℕ) → (ℕ → ℕ → ℕ) → Matrix
matrix n m f = table 0 n (λ i. table 0 m (f i))

-- The sum of the products from the k-th on.
abbrev pub dot : (f g : ℕ → ℕ → ℕ) → (i j k left : ℕ) → ℕ
dot f g i j k zero = 0
dot f g i j k (suc left) = f i k * g k j + dot f g i j (k + 1) left
