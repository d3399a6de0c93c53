-- ===== src/Matmult/Product.antt =====
-- `main` of matmult.c shows the matrix product, whatever the order of its threads.
use cs507_unix_programming.Prelude.{
  ℕ, zero, suc, ◌+◌, ◌≤◌, ◌<◌, ◌≡◌, refl, arith, ◌∙◌, List, [], ◌∷◌, ap, sym, true,
}
use native.Mathlib.Numerals.{add-one}
use cs507_unix_programming.Matmult.{
  DMatrix, entry, dot, row_sum, Work, run, threads_made, all_ended, printed, printed_row, multiply,
  shows,
}
use cs507_unix_programming.Matmult.Threads.{
  IsPartial, IsPartial-start, address_of, all_ended_bound, run-j, all_ended_of, count,
}

module _ {F : Type 0} (z : F) (add mul : F → F → F) where
  -- The sum of the first `n` products of row `r` of A and column `j` of B.
  pub product_entry : (a b : DMatrix F) → (r j n : ℕ) → F
  product_entry a b r j zero = z
  product_entry a b r j (suc n) = add (product_entry a b r j n) (mul (entry a r n) (entry b n j))

  product_entry-suc :
      (a b : DMatrix F) (r j k : ℕ)
      → product_entry a b r j (k + 1)
        ≡ add (product_entry a b r j k) (mul (entry a r k) (entry b k j))
  unfolding product_entry
  product_entry-suc a b r j k = rw add-one

  row_sum-eq :
      (a b : DMatrix F) (r j k n : ℕ)
      → row_sum z add mul a b r j k n (product_entry a b r j k) ≡ product_entry a b r j (k + n)
  unfolding row_sum
  row_sum-eq a b r j k zero = ap (product_entry a b r j) (omega arith)
  row_sum-eq a b r j k (suc n) =
      ap (row_sum z add mul a b r j (k + 1) n) (sym (product_entry-suc a b r j k))
      ∙ row_sum-eq a b r j (k + 1) n
      ∙ ap (product_entry a b r j) (omega arith)

  dot-eq : (a b : DMatrix F) (r j : ℕ) → dot z add mul a b r j ≡ product_entry a b r j b.rows
  unfolding dot product_entry
  dot-eq a b r j = row_sum-eq a b r j 0 b.rows ∙ ap (product_entry a b r j) (omega arith)

  -- The product, row by row.
  pub product_row : (a b : DMatrix F) (r c left : ℕ) → List F
  product_row a b r c zero = []
  product_row a b r c (suc n) = product_entry a b r c b.rows ∷ product_row a b r (c + 1) n

  pub product : (a b : DMatrix F) (r left : ℕ) → List (List F)
  product a b r zero = []
  product a b r (suc n) = product_row a b r 0 b.cols ∷ product a b (r + 1) n

  printed_row-eq :
      (a b m : DMatrix F) (r c n : ℕ)
      → ((d : ℕ) → d < c + n → entry m r d ≡ product_entry a b r d b.rows)
      → printed_row z add mul a b r c n m ≡ product_row a b r c n
  unfolding printed_row product_row
  printed_row-eq a b m r c zero h = refl
  printed_row-eq a b m r c (suc n) h =
      ap (λ t. t ∷ printed_row z add mul a b r (c + 1) n m) (h c (omega arith))
      ∙ ap (◌∷◌ (product_entry a b r c b.rows))
          (printed_row-eq a b m r (c + 1) n (λ d k. h d (omega arith)))

  printed-eq :
      (a b m : DMatrix F) (r n : ℕ)
      → m.cols ≡ b.cols
      → ((s d : ℕ) → s < r + n → d < b.cols → entry m s d ≡ product_entry a b s d b.rows)
      → printed z add mul a b r n m ≡ product a b r n
  unfolding printed product
  printed-eq a b m r zero e h = refl
  printed-eq a b m r (suc n) e h =
      ap (λ t. t ∷ printed z add mul a b (r + 1) n m)
        (ap (λ t. printed_row z add mul a b r 0 t m) e
          ∙ printed_row-eq a b m r 0 b.cols (λ d k. h r d (omega arith) (omega arith)))
      ∙ ap (◌∷◌ (product_row a b r 0 b.cols))
          (printed-eq a b m (r + 1) n e (λ s d k l. h s d (omega arith) l))

  ended-eq :
      (a b : DMatrix F) (w : Work z add mul a b)
      → IsPartial z add mul a b w
      → all_ended z add mul a b w w.c.rows ≡ true
      → printed z add mul a b 0 w.c.rows w.c ≡ product a b 0 a.rows
  ended-eq a b w v e =
      printed-eq a b w.c 0 w.c.rows v.cols (λ s d hs hd.
        let known : s < a.rows = omega (arith, v.rows) in
        ap w.c.store (address_of z add mul a b w s d v known)
        ∙ v.stored s d known
            (omega (arith, all_ended_bound z add mul a b w w.c.rows e s (omega (arith))))
        ∙ dot-eq a b s d)
      ∙ ap (product a b 0) v.rows

  -- Whatever the order in which the threads take their rounds, if the program shows a matrix
  -- then the columns of A are as many as the rows of B, and what it shows is the matrix of the
  -- sums of products, row by row.
  pub multiply-eq-product :
      (a b : DMatrix F) (schedule : List ℕ) {shown : List (List F)}
      → multiply z add mul a b schedule ≡ shows shown
      → (a.cols ≡ b.rows) × (shown ≡ product a b 0 a.rows)
  unfolding multiply
  multiply-eq-product a b schedule e = ground (
    arith,
    ended-eq a b (run z add mul a b (threads_made z add mul a b) schedule)
        (IsPartial-start z add mul a b schedule),
  )

  -- If the columns of A are as many as the rows of B, and the thread of each row takes at least
  -- as many rounds as B has columns, the program shows the product.
  pub multiply-shows :
      (a b : DMatrix F) (schedule : List ℕ)
      → a.cols ≡ b.rows
      → ((r : ℕ) → r < a.rows → b.cols ≤ count r schedule)
      → multiply z add mul a b schedule ≡ shows (product a b 0 a.rows)
  unfolding multiply
  multiply-shows a b schedule e fair = ground (arith, ended-eq a b w v done, done)
    where
      w : Work z add mul a b
      w = run z add mul a b (threads_made z add mul a b) schedule

      v : IsPartial z add mul a b w
      v = IsPartial-start z add mul a b schedule

      done : all_ended z add mul a b w w.c.rows ≡ true
      done = all_ended_of z add mul a b w w.c.rows (λ r h. omega (
        arith,
        fair r (omega (arith, v.rows)),
        run-j z add mul a b (threads_made z add mul a b) schedule r
            (IsPartial-start z add mul a b []) (omega (arith, v.rows)),
      ))
