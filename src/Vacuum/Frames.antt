-- ===== src/Vacuum/Frames.antt =====
-- The strings are the vacuum cleaner behind as many blanks as its place has.
use cs507_unix_programming.Prelude.{
  ℕ, zero, suc, ◌+◌, ◌-◌, ◌≤◌, ◌<◌, List, [], ◌∷◌, ◌++◌, Option, Bytes, get_or, set, replicate,
  length, ◌≡◌, ◌≢◌, refl, ap, ◌∙◌, arith, length-replicate, ◌==◌, Bool-cases, inl, inr,
}
use mathlib.Core.Path.{subst}
use cs507_unix_programming.Vacuum.{
  Strings, build, strings, array_size, vacuum_right, vacuum_left, main, rows_of, cols_of,
}

module _ {A : Type 0} where
  length-set : (l : List A) (i : ℕ) (v : A) → length (set l i v) ≡ length l
  length-set [] i v = refl
  length-set (x ∷ l) zero v = refl
  length-set (x ∷ l) (suc i) v = ap suc (length-set l i v)

  get_or-set_self : (l : List A) (i : ℕ) (v d : A) → i < length l → get_or (set l i v) i d ≡ v
  get_or-set_self [] i v d h = elim h [ ]
  get_or-set_self (x ∷ l) zero v d h = refl
  get_or-set_self (x ∷ l) (suc i) v d h = get_or-set_self l i v d (omega arith)

  get_or-set_ne : (l : List A) (i j : ℕ) (v d : A) → i ≢ j → get_or (set l i v) j d ≡ get_or l j d
  get_or-set_ne [] i j v d h = refl
  get_or-set_ne (x ∷ l) zero zero v d h = absurd (h refl)
  get_or-set_ne (x ∷ l) zero (suc j) v d h = refl
  get_or-set_ne (x ∷ l) (suc i) zero v d h = refl
  get_or-set_ne (x ∷ l) (suc i) (suc j) v d h = get_or-set_ne l i j v d (λ e. h (ap suc e))

-- The strings for the columns below `col` are in place.
record IsBuilt (cols col : ℕ) (s : Strings) : Type 0 where
  right_size : length s.goright ≡ array_size
  left_size : length s.goleft ≡ array_size
  right : (i : ℕ) → i < col → get_or s.goright i [] ≡ replicate i b' ' ++ vacuum_right
  left : (i : ℕ) → i < col → get_or s.goleft (cols - 1 - i) [] ≡ replicate i b' ' ++ vacuum_left

replicate-previous :
    (i : ℕ) (t : Bytes) → 0 < i → b' ' ∷ (replicate (i - 1) b' ' ++ t) ≡ replicate i b' ' ++ t
replicate-previous zero t h = elim h [ ]
replicate-previous (suc i) t h = ap (λ n. b' ' ∷ (replicate n b' ' ++ t)) (omega arith)

build-right :
    (cols col i : ℕ) (s : Strings)
    → IsBuilt cols col s
    → 0 < col
    → col < cols
    → cols ≤ array_size
    → i < col + 1
    → get_or (set s.goright col (b' ' ∷ get_or s.goright (col - 1) [])) i []
      ≡ replicate i b' ' ++ vacuum_right
build-right cols col i s v pos h fits lt = elim (Bool-cases (col == i)) [
  | inl same ↦
      let e : col ≡ i = ground arith in
      rw (← e) (
        get_or-set_self s.goright col _ [] (omega (arith, v.right_size))
        ∙ ap (◌∷◌ b' ') (v.right (col - 1) (omega arith))
        ∙ replicate-previous col vacuum_right pos)
  | inr other ↦ get_or-set_ne s.goright col i _ [] (λ e. ground arith) ∙ v.right i (ground arith)
]

build-left :
    (cols col i : ℕ) (s : Strings)
    → IsBuilt cols col s
    → 0 < col
    → col < cols
    → cols ≤ array_size
    → i < col + 1
    → get_or
        (set s.goleft (cols - 1 - col) (b' ' ∷ get_or s.goleft (cols - col) []))
        (cols - 1 - i)
        []
      ≡ replicate i b' ' ++ vacuum_left
build-left cols col i s v pos h fits lt = elim (Bool-cases (col == i)) [
  | inl same ↦
      let e : col ≡ i = ground arith in
      rw (← e) (
        get_or-set_self s.goleft (cols - 1 - col) _ [] (omega (arith, v.left_size))
        ∙ ap (λ k. b' ' ∷ get_or s.goleft k []) (omega arith)
        ∙ ap (◌∷◌ b' ') (v.left (col - 1) (omega arith))
        ∙ replicate-previous col vacuum_left pos)
  | inr other ↦
      get_or-set_ne s.goleft (cols - 1 - col) (cols - 1 - i) _ [] (λ e. ground arith)
      ∙ v.left i (ground arith)
]

build-IsBuilt :
    (cols col n : ℕ) (s : Strings)
    → col + n ≡ cols
    → 0 < col
    → cols ≤ array_size
    → IsBuilt cols col s
    → IsBuilt cols cols (build cols col n s)
unfolding build
build-IsBuilt cols col zero s e pos fits v =
    let same : col ≡ cols = omega arith in subst (λ k. IsBuilt cols k s) same v
build-IsBuilt cols col (suc n) s e pos fits v =
    build-IsBuilt cols (col + 1) n _ (omega arith) (omega arith) fits (record {
      right_size = length-set s.goright col _ ∙ v.right_size;
      left_size = length-set s.goleft (cols - 1 - col) _ ∙ v.left_size;
      right = λ i lt. build-right cols col i s v pos (omega arith) fits lt;
      left = λ i lt. build-left cols col i s v pos (omega arith) fits lt;
    })

-- With at most 80 columns, for every column: the string going right is the vacuum cleaner
-- behind as many blanks as the number of the column, and going left it is so with the columns
-- counted from the other end.
pub strings_lem :
    (cols i : ℕ)
    → i < cols
    → cols ≤ array_size
    → (get_or (strings cols).goright i [] ≡ replicate i b' ' ++ vacuum_right)
      × (get_or (strings cols).goleft (cols - 1 - i) [] ≡ replicate i b' ' ++ vacuum_left)
unfolding strings
strings_lem cols i h fits = (v.right i h, v.left i h)
  where
    start : Strings
    start = record {
      goright = set (replicate array_size []) 0 vacuum_right;
      goleft = set (replicate array_size []) (cols - 1) vacuum_left;
    }

    v : IsBuilt cols cols (build cols 1 (cols - 1) start)
    v = build-IsBuilt cols 1 (cols - 1) start (omega arith) (omega arith) fits (record {
      right_size = refl;
      left_size =
          length-set (replicate array_size []) (cols - 1) vacuum_left
          ∙ length-replicate {A = Bytes} 80 [];
      right = λ k lt. let e : k ≡ 0 = omega arith in rw e;
      left = λ k lt.
          let e : k ≡ 0 = omega arith in
          rw e (
            ap (λ j. get_or start.goleft j []) (omega arith)
            ∙ get_or-set_self (replicate array_size []) (cols - 1) vacuum_left []
                (omega (arith, length-replicate {A = Bytes} 80 [])));
    })

-- With two arguments or more the second one has no effect on what is shown.
pub main-ignores :
    (scan : Bytes → Option ℕ) (name first second other : Bytes) (more : List Bytes)
    → main scan (name ∷ first ∷ second ∷ more) ≡ main scan (name ∷ first ∷ other ∷ more)
unfolding main rows_of cols_of
main-ignores scan name first second other more = refl
