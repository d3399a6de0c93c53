-- ===== src/Matmult/Threads.antt =====
-- Whatever the order of the threads, an entry that is stored is the row's product.
use cs507_unix_programming.Prelude.{
  ℕ, zero, suc, ◌+◌, ◌*◌, ◌≤◌, ◌<◌, ◌≡◌, refl, get_or, arith, ◌∙◌, List, [], ◌∷◌, inl, inr, ap,
  true, Bool-cases, ltb, ltb→lt, ◌==◌, if◌then◌else◌, min,
}
use cs507_unix_programming.Matmult.{
  DMatrix, address, update, row_starts, dmatmake, dot, Work, advance, turn, run, threads_made,
  all_ended,
}
use cs507_unix_programming.Matmult.Storage.{get_or-row_starts, row_major_injective}

abbrev pub count : ℕ → List ℕ → ℕ
count r [] = 0
count r (s ∷ l) = if s == r then count r l + 1 else count r l

module _ {F : Type 0} (z : F) (add mul : F → F → F) (a b : DMatrix F) where
  -- The part of the product that the threads have stored.
  pub record IsPartial (w : Work z add mul a b) : Type 0 where
    pub mat : w.c.mat ≡ row_starts a.rows b.cols 0
    pub rows : w.c.rows ≡ a.rows
    pub cols : w.c.cols ≡ b.cols
    pub started : (r : ℕ) → w.j r ≤ b.cols
    pub stored :
        (r c : ℕ) → r < a.rows → c < w.j r → w.c.store (r * b.cols + c) ≡ dot z add mul a b r c

  IsPartial-threads_made : IsPartial (threads_made z add mul a b)
  unfolding threads_made dmatmake
  IsPartial-threads_made = record {
    mat = refl;
    rows = refl;
    cols = refl;
    started = λ r. omega arith;
    stored = λ r c h k. absurd (omega arith);
  }

  pub address_of :
      (w : Work z add mul a b) (r c : ℕ)
      → IsPartial w
      → r < a.rows
      → address w.c r c ≡ r * b.cols + c
  address_of w r c v h =
      ap (λ l. get_or l r 0 + c) v.mat ∙ omega (arith, get_or-row_starts a.rows b.cols 0 r h)

  advance-stored :
      (w : Work z add mul a b) (s : ℕ)
      → IsPartial w
      → s < a.rows
      → w.j s < b.cols
      → (r c : ℕ) → r < a.rows
      → c < update w.j s (w.j s + 1) r
      → update w.c.store (s * b.cols + w.j s) (dot z add mul a b s (w.j s)) (r * b.cols + c)
        ≡ dot z add mul a b r c
  advance-stored w s v hs hj r c hr hc = elim (Bool-cases (s * b.cols + w.j s == r * b.cols + c)) [
    | inl same ↦
        let e =
          row_major_injective s r (w.j s) c b.cols hj (ground (arith, v.started r))
            (ground arith) in
        rw same (cc (e.0, e.1))
    | inr other ↦ rw other (v.stored r c hr (ground arith))
  ]

  IsPartial-advance :
      (w : Work z add mul a b) (s : ℕ)
      → IsPartial w
      → s < a.rows
      → w.j s < b.cols
      → IsPartial (advance z add mul a b w s)
  IsPartial-advance w s v hs hj = record {
    mat = v.mat;
    rows = v.rows;
    cols = v.cols;
    started = λ r. ground (arith, v.started r);
    stored = λ r c hr hc. rw (address_of w s (w.j s) v hs) (advance-stored w s v hs hj r c hr hc);
  }

  IsPartial-turn :
      (w : Work z add mul a b) (s : ℕ) → IsPartial w → IsPartial (turn z add mul a b w s)
  unfolding turn
  IsPartial-turn w s v = elim (Bool-cases (ltb s w.c.rows)) [
    | inl known ↦ elim (Bool-cases (ltb (w.j s) b.cols)) [
      | inl more ↦
          rw (known, more)
            (IsPartial-advance w s v (omega (arith, ltb→lt s w.c.rows known, v.rows))
              (ltb→lt (w.j s) b.cols more))
      | inr ended ↦ rw (known, ended) v
    ]
    | inr unknown ↦ rw unknown v
  ]

  IsPartial-run :
      (w : Work z add mul a b) (schedule : List ℕ)
      → IsPartial w
      → IsPartial (run z add mul a b w schedule)
  unfolding run
  IsPartial-run w [] v = v
  IsPartial-run w (s ∷ l) v = IsPartial-run (turn z add mul a b w s) l (IsPartial-turn w s v)

  pub IsPartial-start :
      (schedule : List ℕ) → IsPartial (run z add mul a b (threads_made z add mul a b) schedule)
  IsPartial-start schedule =
      IsPartial-run (threads_made z add mul a b) schedule IsPartial-threads_made

  -- The thread of row `r` is ended once it has taken as many rounds as there are columns.
  turn-j :
      (w : Work z add mul a b) (s r : ℕ)
      → r < w.c.rows
      → w.j r ≤ b.cols
      → (turn z add mul a b w s).j r ≡ (if s == r then min b.cols (w.j r + 1) else w.j r)
  unfolding turn
  turn-j w s r h k = ground arith

  pub run-j :
      (w : Work z add mul a b) (l : List ℕ) (r : ℕ)
      → IsPartial w
      → r < a.rows
      → (run z add mul a b w l).j r ≡ min b.cols (w.j r + count r l)
  unfolding run
  run-j w [] r v h = omega (arith, v.started r)
  run-j w (s ∷ l) r v h =
      run-j (turn z add mul a b w s) l r (IsPartial-turn w s v) h
      ∙ ground (arith, turn-j w s r (omega (arith, v.rows)) (v.started r))

  pub all_ended_of :
      (w : Work z add mul a b) (n : ℕ)
      → ((r : ℕ) → r < n → b.cols ≤ w.j r)
      → all_ended z add mul a b w n ≡ true
  unfolding all_ended
  all_ended_of w zero h = refl
  all_ended_of w (suc n) h =
      ground (arith, h n (omega arith), all_ended_of w n (λ r k. h r (omega arith)))

  pub all_ended_bound :
      (w : Work z add mul a b) (n : ℕ)
      → all_ended z add mul a b w n ≡ true
      → (r : ℕ) → r < n
      → b.cols ≤ w.j r
  unfolding all_ended
  all_ended_bound w zero e r h = absurd (omega arith)
  all_ended_bound w (suc n) e r h = elim (Bool-cases (r == n)) [
    | inl last ↦ ground arith
    | inr before ↦ all_ended_bound w n (ground arith) r (ground arith)
  ]
