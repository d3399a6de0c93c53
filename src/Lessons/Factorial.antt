-- ===== src/Lessons/Factorial.antt =====
-- ex4.c: products, with the ints of C: a result from 2 ^ 31 on is undefined, and none here.
use native.Mathlib.Decide.{dec_lt}
use native.Mathlib.Nat.{mul_comm, mul_assoc, mul-pos, mul-le-mul_right, le-mul_of_pos_right}
use mathlib.Core.Path.{subst}
use cs507_unix_programming.Prelude.{
  ℕ, zero, suc, ◌+◌, ◌-◌, ◌*◌, ◌≤◌, ◌<◌, Option, none, some, ltb, lt→ltb, if◌then◌else◌, ◌≡◌, refl,
  ap, sym, ◌∙◌, arith,
}

abbrev pub int_end : ℕ
int_end = 2147483648

-- A result as an int.
abbrev pub int : ℕ → Option ℕ
int n = if ltb n int_end then some n else none

abbrev pub and_then : Option ℕ → (ℕ → Option ℕ) → Option ℕ
and_then none next = none
and_then (some n) next = next n

-- The loop of f3, over `i` down to 1.
unfoldable pub multiply : (i : ℕ) → (prd : Option ℕ) → Option ℕ
multiply zero prd = prd
multiply (suc i) prd = multiply i (and_then prd (λ n. int (n * suc i)))

unfoldable pub f3 : ℕ → Option ℕ
unfolding multiply
f3 if3 = multiply (if3 - 1) (some if3)

unfoldable pub f2 : ℕ → Option ℕ
unfolding f3
f2 if2 = and_then (int (if2 + 1)) f3

unfoldable pub f1 : ℕ → Option ℕ
unfolding f2 f3
f1 if1 = and_then (int (if1 + 1)) (λ n. and_then (f2 n) (λ a. and_then (f3 n) (λ b. int (a + b))))

abbrev pub factorial : ℕ → ℕ
factorial zero = 1
factorial (suc n) = factorial n * suc n

multiply-none : (i : ℕ) → multiply i none ≡ none
unfolding multiply
multiply-none zero = refl
multiply-none (suc i) = multiply-none i

factorial-pos : (n : ℕ) → 0 < factorial n
factorial-pos zero = omega arith
factorial-pos (suc n) = mul-pos (factorial-pos n) (omega arith)

factorial-le : (n : ℕ) → n ≤ factorial n
factorial-le zero = omega arith
factorial-le (suc n) = omega (arith, mul-le-mul_right (suc n) (factorial-pos n), one_times (suc n))
  where
    one_times : (m : ℕ) → 1 * m ≡ m
    one_times m = omega arith

int-in : (n : ℕ) → n < int_end → int n ≡ some n
int-in n h = rw (lt→ltb n int_end h) refl

int-out : (n : ℕ) → int_end ≤ n → int n ≡ none
int-out n h = ground (arith, h)

multiply-factorial : (i p : ℕ) → multiply i (int p) ≡ int (p * factorial i)
unfolding multiply
multiply-factorial zero p = ap int (omega arith)
multiply-factorial (suc i) p = elim (dec_lt p int_end) [
  | yes h ↦
      ap (λ o. multiply i (and_then o (λ n. int (n * suc i)))) (int-in p h)
      ∙ multiply-factorial i (p * suc i)
      ∙ ap int
          (mul_assoc p (suc i) (factorial i) ∙ ap (λ m. p * m) (mul_comm (suc i) (factorial i)))
  | no h ↦
      ap (λ o. multiply i (and_then o (λ n. int (n * suc i)))) (int-out p (omega (arith, h)))
      ∙ multiply-none i
      ∙ sym (
          int-out (p * factorial (suc i))
            (omega (arith, h, le-mul_of_pos_right p (factorial-pos (suc i)))))
]

f3-factorial : (n : ℕ) → suc n < int_end → f3 (suc n) ≡ int (factorial (suc n))
unfolding f3
f3-factorial n h =
    let before : suc n - 1 ≡ n = omega arith in
    ap (λ m. multiply m (some (suc n))) before
    ∙ ap (multiply n) (sym (int-in (suc n) h))
    ∙ multiply-factorial n (suc n)
    ∙ ap int (mul_comm (suc n) (factorial n))

int-add : (a b : ℕ) → and_then (int a) (λ x. and_then (int b) (λ y. int (x + y))) ≡ int (a + b)
int-add a b = ground arith

f2-factorial : (n : ℕ) → f2 n ≡ int (factorial (suc n))
unfolding f2
f2-factorial n = elim (dec_lt (n + 1) int_end) [
  | yes h ↦
      ap (λ o. and_then o f3) (int-in (n + 1) h)
      ∙ ap f3 (add-one n)
      ∙ f3-factorial n (omega (arith, h))
  | no h ↦
      ap (λ o. and_then o f3) (int-out (n + 1) (omega (arith, h)))
      ∙ sym (int-out (factorial (suc n)) (omega (arith, h, factorial-le (suc n))))
]
  where
    add-one : (n : ℕ) → n + 1 ≡ suc n
    add-one n = omega arith

-- For every argument that is not negative, f1 of ex4.c gives the sum of the factorials of the
-- argument plus 2 and plus 1 if this sum is below 2 ^ 31, and else an int overflows somewhere
-- on the way.
pub f1-factorial : (n : ℕ) → f1 n ≡ int (factorial (n + 2) + factorial (n + 1))
unfolding f1
f1-factorial n = elim (dec_lt (n + 1) int_end) [
  | yes h ↦
      ap (λ o. and_then o later) (int-in (n + 1) h)
      ∙ ap (λ o. and_then o (λ a. and_then (f3 (n + 1)) (λ b. int (a + b)))) (f2-factorial (n + 1))
      ∙ ap (λ o. and_then (int (factorial (suc (n + 1)))) (λ a. and_then o (λ b. int (a + b))))
          (third n (omega (arith, h)))
      ∙ int-add (factorial (suc (n + 1))) (factorial (n + 1))
      ∙ ap (λ m. int (factorial m + factorial (n + 1))) (plus-two n)
  | no h ↦
      ap (λ o. and_then o later) (int-out (n + 1) (omega (arith, h)))
      ∙ sym
          (int-out (factorial (n + 2) + factorial (n + 1)) (omega (arith, h, factorial-le (n + 1))))
]
  where
    later : ℕ → Option ℕ
    later m = and_then (f2 m) (λ a. and_then (f3 m) (λ b. int (a + b)))

    plus-two : (n : ℕ) → suc (n + 1) ≡ n + 2
    plus-two n = omega arith

    third : (n : ℕ) → n + 1 < int_end → f3 (n + 1) ≡ int (factorial (n + 1))
    third n h =
        let e : suc n ≡ n + 1 = omega arith in
        subst (λ m. f3 m ≡ int (factorial m)) e (f3-factorial n (omega (arith, h)))
