-- ===== src/Exercises/Quit.antt =====
-- hw8/interceptor.c: the loop that waits for the word quit.
use cs507_unix_programming.Prelude.{
  ℕ, zero, suc, ◌≤◌, [], ◌∷◌, Bool, true, false, Bytes, length, str_eq, if◌then◌else◌, ◌==◌, ◌≡◌,
  refl, arith, ap, ◌∙◌,
}

-- fgets(3) with room for `n` bytes and the NUL: what is stored, and what is left of the input.
abbrev pub fgets : (n : ℕ) → Bytes → Bytes × Bytes
fgets zero input = ([], input)
fgets (suc n) [] = ([], [])
fgets (suc n) (c ∷ input) =
    let rest = fgets n input in if c == 10 then (c ∷ [], input) else (c ∷ rest.0, rest.1)

-- "quit"
abbrev pub quit : Bytes
quit = b'q' ∷ b'u' ∷ b'i' ∷ b't' ∷ []

-- `str`, `done` and what is left of the input.
pub record Loop : Type 0 where
  pub str : Bytes
  pub done : Bool
  pub input : Bytes

-- At the end of the input fgets stores nothing.
abbrev pub next_str : (str : Bytes) → (input : Bytes) → Bytes × Bytes
next_str str [] = (str, [])
next_str str (c ∷ input) = fgets 3 (c ∷ input)

-- One round of the loop of interceptor.c, whose `str` has four bytes.
abbrev pub round : Loop → Loop
round l =
    let r = next_str l.str l.input in
    record { str = r.0; done = if str_eq quit r.0 then true else l.done; input = r.1 }

-- `n` rounds, as long as the loop goes on. `str` has no value before it is read.
unfoldable pub rounds : (n : ℕ) → Loop → Loop
rounds zero l = l
rounds (suc n) l = let more = rounds n (round l) in if l.done then l else more

abbrev pub start : (str : Bytes) → (input : Bytes) → Loop
start str input = record { str = str; done = false; input = input }

length-fgets : (n : ℕ) (input : Bytes) → length (fgets n input).0 ≤ n
length-fgets zero input = omega arith
length-fgets (suc n) [] = omega arith
length-fgets (suc n) (c ∷ input) = ground (arith, length-fgets n input)

quit_long : (s : Bytes) → length s ≤ 3 → str_eq quit s ≡ false
quit_long [] h = refl
quit_long (a ∷ []) h = ground arith
quit_long (a ∷ b ∷ []) h = ground arith
quit_long (a ∷ b ∷ c ∷ []) h = ground arith
quit_long (a ∷ b ∷ c ∷ d ∷ s) h = absurd (omega (arith, h))

next_str-short : (str input : Bytes) → length str ≤ 3 → length (next_str str input).0 ≤ 3
next_str-short str [] h = h
next_str-short str (c ∷ input) h = length-fgets 3 (c ∷ input)

round-done : (l : Loop) → length (round l).str ≤ 3 → (round l).done ≡ l.done
round-done l h = rw (quit_long (round l).str h) refl

rounds-done : (n : ℕ) (l : Loop) → length l.str ≤ 3 → l.done ≡ false → (rounds n l).done ≡ false
unfolding rounds
rounds-done zero l h d = d
rounds-done (suc n) l h d =
    let short = next_str-short l.str l.input h in
    ap (λ b. (if b then l else rounds n (round l)).done) d
    ∙ rounds-done n (round l) short (round-done l short ∙ d)

-- Whatever is read, if it is not empty, no number of rounds sets done.
pub never_done :
    (str : Bytes) (c : ℕ) (input : Bytes) (n : ℕ) → (rounds n (start str (c ∷ input))).done ≡ false
unfolding rounds
never_done str c input zero = refl
never_done str c input (suc n) =
    let l = start str (c ∷ input) in
    let short = length-fgets 3 (c ∷ input) in rounds-done n (round l) short (round-done l short)
