-- ===== src/Matmult/Storage.antt =====
-- The rows of a matrix lie one after the other, so that entries do not share storage.
use cs507_unix_programming.Prelude.{ℕ, zero, suc, ◌+◌, ◌*◌, ◌≤◌, ◌<◌, ◌≡◌, get_or, arith, ap}
use native.Mathlib.Decide.{dec_lt}
use cs507_unix_programming.Matmult.{row_starts}

pub get_or-row_starts :
    (rows cols mrow r : ℕ) → r < rows → get_or (row_starts rows cols mrow) r 0 ≡ mrow + r * cols
unfolding row_starts
get_or-row_starts zero cols mrow r h = elim h [ ]
get_or-row_starts (suc n) cols mrow zero h = omega arith
get_or-row_starts (suc n) cols mrow (suc r) h =
    omega (arith, get_or-row_starts n cols (mrow + cols) r (omega arith))

row_above : (r s n : ℕ) → r < s → r * n + n ≤ s * n
row_above r s n h = grind arith

-- An address belongs to one entry.
pub row_major_injective :
    (r s c d n : ℕ) → c < n → d < n → r * n + c ≡ s * n + d → (r ≡ s) × (c ≡ d)
row_major_injective r s c d n hc hd e = elim (dec_lt r s) [
  | yes p ↦ absurd (omega (arith, row_above r s n p))
  | no p ↦ elim (dec_lt s r) [
    | yes q ↦ absurd (omega (arith, row_above s r n q))
    | no q ↦ let same : r ≡ s = omega arith in (same, omega (arith, ap (λ (t : ℕ). t * n) same))
  ]
]
