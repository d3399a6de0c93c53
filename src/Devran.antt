-- ===== src/Devran.antt =====
-- SOLNS/HW03/devran.c and devranfifo.c: show bytes of /dev/random, without those that are not text.
pub mod Counting
pub mod Tests
use cs507_unix_programming.Prelude.{
  ℕ, zero, suc, ◌+◌, ◌-◌, List, [], ◌∷◌, Bool, Option, none, some, if◌then◌else◌, ltb, leb, ◌||◌,
  not,
}

-- `uc < 31 || uc >= 127`
abbrev pub rejects : ℕ → Bool
rejects uc = ltb uc 31 || leb 127 uc

pub data Ending : Type 0 where
  done : (rejected : ℕ) → Ending  -- "rejected %d characters"
  reading : Ending  -- inside fgetc(3), with no byte left
  exits : Ending

pub record Run : Type 0 where
  pub ending : Ending
  pub lines : List ℕ

abbrev pub run : Ending → List ℕ → Run
run e l = record { ending = e; lines = l }

abbrev pub line_then : ℕ → Run → Run
line_then uc r = run r.ending (uc ∷ r.lines)

-- The loops over `i`, with `left` rounds left, and over the bytes of one round. `rejected` is
-- counted up for each byte, and down for the one that is taken.
unfoldable pub draw : (left : ℕ) → (random : List ℕ) → (rejected : ℕ) → Run
draw zero random rejected = run (done rejected) []
draw (suc n) [] rejected = run reading []
draw (suc n) (uc ∷ random) rejected =
    let again = draw (suc n) random (rejected + 1) in
    let next = line_then uc (draw n random (rejected + 1 - 1)) in if rejects uc then again else next

-- `main` of devran.c
unfoldable pub devran : List ℕ → Run
unfolding draw
devran random = draw 10 random 0

-- `main` of devranfifo.c: access(2) finds the fifo or mkfifo(3) makes it; `scanned` is what
-- fscanf(3) reads from it, and `qty` stays 0 without a number.
unfoldable pub devranfifo :
    (has_fifo makes_fifo : Bool) → (scanned : Option ℕ) → (random : List ℕ) → Run
unfolding draw
devranfifo has_fifo makes_fifo scanned random =
    if has_fifo || makes_fifo
    then draw (elim scanned [ none ↦ 0 | some qty ↦ qty ]) random 0
    else run exits []
