-- ===== src/Devran/Counting.antt =====
-- The bytes that are shown, and the count of those that are not.
use cs507_unix_programming.Prelude.{
  ℕ, zero, suc, ◌+◌, ◌≤◌, List, [], ◌∷◌, ◌++◌, true, false, ◌≡◌, refl, ap, arith, length,
  if◌then◌else◌, Bool-cases, inl, inr,
}
use cs507_unix_programming.Devran.{rejects, done, line_then, draw}

abbrev pub accepted : List ℕ → List ℕ
accepted [] = []
accepted (uc ∷ l) = if rejects uc then accepted l else uc ∷ accepted l

-- A run that ends has read a beginning of the stream: it shows what is accepted of that, `n`
-- bytes, and counts the others.
pub record IsDrawn (n before : ℕ) (random : List ℕ) (lines : List ℕ) (rejected : ℕ) : Type 0 where
  pub used : List ℕ
  pub rest : List ℕ
  pub splits : random ≡ used ++ rest
  pub shows : lines ≡ accepted used
  pub many : length lines ≡ n
  pub counts : rejected + n ≡ before + length used

draw-again :
    (n uc : ℕ) (random : List ℕ) (c : ℕ)
    → rejects uc ≡ true
    → draw (suc n) (uc ∷ random) c ≡ draw (suc n) random (c + 1)
unfolding draw
draw-again n uc random c e = rw e

draw-next :
    (n uc : ℕ) (random : List ℕ) (c : ℕ)
    → rejects uc ≡ false
    → draw (suc n) (uc ∷ random) c ≡ line_then uc (draw n random c)
unfolding draw
draw-next n uc random c e = rw e (ap (λ k. line_then uc (draw n random k)) (omega arith))

-- It ends once the stream has given enough bytes that are accepted.
draw-enough :
    (n : ℕ) (random : List ℕ) (c : ℕ)
    → n ≤ length (accepted random)
    → (r : ℕ) × ((draw n random c).ending ≡ done r)
unfolding draw
draw-enough zero random c h = (c, refl)
draw-enough (suc n) [] c h = elim h [ ]
draw-enough (suc n) (uc ∷ random) c h = elim (Bool-cases (rejects uc)) [
  | inl skip ↦
      rw (draw-again n uc random c skip) (draw-enough (suc n) random (c + 1) (ground arith))
  | inr take_it ↦ rw (draw-next n uc random c take_it) (draw-enough n random c (ground arith))
]

-- If the random stream holds at least as many accepted bytes as are asked for, the run ends.
pub draw-done :
    (n : ℕ) (random : List ℕ)
    → n ≤ length (accepted random)
    → (r : ℕ) × ((draw n random 0).ending ≡ done r)
draw-done n random h = draw-enough n random 0 h
