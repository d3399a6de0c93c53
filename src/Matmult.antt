-- ===== src/Matmult.antt =====
-- SOLNS/HW11/matmult.c: a matrix product with one thread for each row of the result.
-- The numbers are a type with the operations that the program uses, since there are no doubles.
pub mod Storage
pub mod Threads
pub mod Product
pub mod Tests
use cs507_unix_programming.Prelude.{
  ℕ, zero, suc, ◌+◌, ◌*◌, List, [], ◌∷◌, ◌++◌, Bool, Option, none, some, true, false, get_or,
  if◌then◌else◌, ◌==◌, ltb, not,
}

module _ {A : Type 0} where
  abbrev pub update : (ℕ → A) → ℕ → A → ℕ → A
  update f i a j = if i == j then a else f j

-- `struct DMatrix_str`: `mat` holds the address of each row in `store`.
pub record DMatrix (F : Type 0) : Type 0 where
  pub mat : List ℕ
  pub store : ℕ → F
  pub rows : ℕ
  pub cols : ℕ

module _ {F : Type 0} where
  -- The address of `M->mat[r][c]`.
  abbrev pub address : DMatrix F → ℕ → ℕ → ℕ
  address m r c = get_or m.mat r 0 + c

  -- `M->mat[r][c]`
  abbrev pub entry : DMatrix F → ℕ → ℕ → F
  entry m r c = m.store (address m r c)

  abbrev pub set_entry : DMatrix F → ℕ → ℕ → F → DMatrix F
  set_entry m r c v = record m { store = update m.store (address m r c) v }

-- `for(r= 0; r < rows; ++r, mrow+= cols) M->mat[r]= mrow;`
unfoldable pub row_starts : (rows cols mrow : ℕ) → List ℕ
row_starts zero cols mrow = []
row_starts (suc n) cols mrow = mrow ∷ row_starts n cols (mrow + cols)

-- `Dmatmake`; `calloc` clears the entries.
unfoldable pub dmatmake : {F : Type 0} → (zero_entry : F) → (rows cols : ℕ) → DMatrix F
unfolding row_starts
dmatmake z rows cols = record {
  mat = row_starts rows cols 0;
  store = λ _. z;
  rows = rows;
  cols = cols;
}

-- A stream with fscanf(3) on it, for `%d` and `%lf`.
pub record Reader (F S : Type 0) : Type 0 where
  pub scan_int : S → ℕ × S
  pub scan_double : S → F × S

module _ {F S : Type 0} (z : F) (f : Reader F S) where
  -- The loop over `c`, with the rounds left.
  unfoldable pub get_row : (r c left : ℕ) → DMatrix F × S → DMatrix F × S
  get_row r c zero st = st
  get_row r c (suc n) st =
      let next = f.scan_double st.1 in get_row r (c + 1) n (set_entry st.0 r c next.0, next.1)

  unfoldable pub get_rows : (r left : ℕ) → DMatrix F × S → DMatrix F × S
  unfolding get_row
  get_rows r zero st = st
  get_rows r (suc n) st = get_rows (r + 1) n (get_row r 0 st.0.cols st)

  -- `Dmatget`
  unfoldable pub dmatget : S → DMatrix F × S
  unfolding get_rows dmatmake
  dmatget s =
      let rows = f.scan_int s in
      let cols = f.scan_int rows.1 in get_rows 0 rows.0 (dmatmake z rows.0 cols.0, cols.1)

-- `sum` over `k`, with the rounds left.
module _ {F : Type 0} (z : F) (add mul : F → F → F) (a b : DMatrix F) where
  unfoldable pub row_sum : (r j k left : ℕ) → F → F
  row_sum r j k zero sum = sum
  row_sum r j k (suc n) sum = row_sum r j (k + 1) n (add sum (mul (entry a r k) (entry b k j)))

  -- What `RowMult` stores at `C->mat[r][j]`.
  unfoldable pub dot : (r j : ℕ) → F
  unfolding row_sum
  dot r j = row_sum r j 0 b.rows z

  -- `C` and, for each thread, its `j`: the entries of its row that it has stored.
  pub record Work : Type 0 where
    pub c : DMatrix F
    pub j : ℕ → ℕ

  -- One round of the loop over `j` in `RowMult`, by the thread of row `r`.
  abbrev pub advance : Work → ℕ → Work
  advance w r = record { c = set_entry w.c r (w.j r) (dot r (w.j r)); j = update w.j r (w.j r + 1) }

  -- The thread takes a round if it is one of `C->rows` threads and has not ended.
  unfoldable pub turn : Work → ℕ → Work
  turn w r = if ltb r w.c.rows then (if ltb (w.j r) b.cols then advance w r else w) else w

  -- The threads in the order in which they take rounds.
  unfoldable pub run : Work → List ℕ → Work
  unfolding turn
  run w [] = w
  run w (r ∷ schedule) = run (turn w r) schedule

  -- pthread_join returns for every thread.
  unfoldable pub all_ended : Work → ℕ → Bool
  all_ended w zero = true
  all_ended w (suc n) = if ltb (w.j n) b.cols then false else all_ended w n

  unfoldable pub threads_made : Work
  unfolding dmatmake
  threads_made = record { c = dmatmake z a.rows b.cols; j = λ _. 0 }

  -- The printing loops.
  unfoldable pub printed_row : (r c left : ℕ) → DMatrix F → List F
  printed_row r c zero m = []
  printed_row r c (suc n) m = entry m r c ∷ printed_row r (c + 1) n m

  unfoldable pub printed : (r left : ℕ) → DMatrix F → List (List F)
  unfolding printed_row
  printed r zero m = []
  printed r (suc n) m = printed_row r 0 m.cols m ∷ printed (r + 1) n m

pub data MatmultRun (F : Type 0) : Type 0 where
  usage no_file no_product joining : MatmultRun F
  shows : List (List F) → MatmultRun F

-- `main`, on a stream that fopen(3) opens or not, with an order of the threads.
unfoldable pub multiply :
    {F : Type 0} → F → (F → F → F) → (F → F → F) → DMatrix F → DMatrix F → List ℕ → MatmultRun F
unfolding run threads_made all_ended printed
multiply z add mul a b schedule =
    if not (a.cols == b.rows)
    then no_product
    else (let w = run z add mul a b (threads_made z add mul a b) schedule in
        if all_ended z add mul a b w w.c.rows
        then shows (printed z add mul a b 0 w.c.rows w.c)
        else joining)

unfoldable pub main :
    {F S : Type 0}
    → F
    → (F → F → F)
    → (F → F → F)
    → Reader F S
    → (argc : ℕ) → Option S
    → (schedule : List ℕ) → MatmultRun F
unfolding multiply dmatget
main z add mul f argc none schedule = if ltb argc 2 then usage else no_file
main z add mul f argc (some s) schedule =
    if ltb argc 2
    then usage
    else (let a = dmatget z f s in let b = dmatget z f a.1 in multiply z add mul a.0 b.0 schedule)
