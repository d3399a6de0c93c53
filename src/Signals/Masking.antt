-- ===== src/Signals/Masking.antt =====
-- What sigmasker.c makes of a line without a word.
use cs507_unix_programming.Prelude.{
  ℕ, zero, suc, ◌∷◌, [], ◌++◌, List, Bytes, Option, some, Bool, false, replicate, ◌≡◌, refl, arith,
  str_eq,
}
use cs507_unix_programming.Signals.Interceptor.{quit}
use cs507_unix_programming.Signals.Sigmasker.{
  chop, tokens, mask_loop, Locals, Event, line, undefined,
}

-- A line of blanks, as fgets(3) returns it.
abbrev pub blank_line : ℕ → Bytes
blank_line n = replicate n b' ' ++ b'\n' ∷ []

chop-blank_line : (n : ℕ) → chop (blank_line n) ≡ some (replicate n b' ')
unfolding chop
chop-blank_line zero = refl
chop-blank_line (suc zero) = refl
chop-blank_line (suc (suc n)) = rw (chop-blank_line (suc n))

tokens-blank_line : (n : ℕ) → tokens (replicate n b' ') ≡ []
unfolding tokens
tokens-blank_line zero = refl
tokens-blank_line (suc n) = tokens-blank_line n

not_quit : (n : ℕ) → str_eq (replicate n b' ') quit ≡ false
not_quit zero = refl
not_quit (suc n) = refl

-- In every state a line of blanks only, the empty line included, leads sigmasker into undefined
-- behaviour: strtok finds no word, and the null pointer is compared.
pub mask_loop-blank_line :
    (scan : Bytes → Option ℕ) (s : Locals) (n : ℕ) (isin : ℕ → Bool) (es : List Event)
    → (mask_loop scan s (line (blank_line n) isin ∷ es)).ending ≡ undefined
unfolding mask_loop
mask_loop-blank_line scan s n isin es =
    ground (arith, chop-blank_line n, tokens-blank_line n, not_quit n)
