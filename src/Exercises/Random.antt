-- ===== src/Exercises/Random.antt =====
-- hw3/devran.c and hw3/devranfifo.c: so many printable bytes of /dev/random.
use native.Mathlib.Decide.{dec_lt}
use cs507_unix_programming.Prelude.{
  ℕ, ◌+◌, ◌≤◌, ◌<◌, [], ◌∷◌, ◌++◌, Bool, true, false, not, ◌&&◌, Bytes, length, length-append,
  append_assoc, leb, ltb, if◌then◌else◌, ◌≡◌, refl, ap, ◌∙◌, inl, inr, arith, Bool-cases,
}

-- `str` up to `cap`, and the counts.
pub record Drawn : Type 0 where
  pub str : Bytes
  pub rej : ℕ
  pub acc : ℕ

-- `reading` is inside fgetc(3); `undefined` after a write behind the array.
pub data Outcome : Type 0 where
  done : Drawn → Outcome
  reading undefined : Outcome

abbrev pub accepts : ℕ → Bool
accepts c = leb 32 c && leb c 126

abbrev pub take_in : ℕ → Drawn → Drawn
take_in c d =
    if accepts c
    then record d { str = d.str ++ c ∷ []; acc = d.acc + 1 }
    else record d { rej = d.rej + 1 }

-- The loop; its body comes before its test. `qty` is also the size of the array.
unfoldable pub draw : (qty : ℕ) → Drawn → (random : Bytes) → Outcome
draw qty d [] = reading
draw qty d (c ∷ random) =
    let rest = draw qty (take_in c d) random in
    if accepts c && leb qty (length d.str)
    then undefined
    else if ltb (length (take_in c d).str) qty
    then rest
    else done (take_in c d)

abbrev pub nothing : Drawn
nothing = record { str = []; rej = 0; acc = 0 }

-- `main` of devran.c, whose array has ten bytes, and of devranfifo.c, with the quantity that
-- fscanf(3) reads.
unfoldable pub devran : (random : Bytes) → Outcome
devran random = draw 10 nothing random

unfoldable pub devranfifo : (qty : ℕ) → (random : Bytes) → Outcome
devranfifo qty random = draw qty nothing random

-- The bytes for which a test holds.
abbrev pub filter : (ℕ → Bool) → Bytes → Bytes
filter p [] = []
filter p (c ∷ cs) = if p c then c ∷ filter p cs else filter p cs

abbrev pub rejects : ℕ → Bool
rejects c = not (accepts c)

-- The loop used a beginning of the bytes with `qty` that are accepted, and has them in order.
pub record Finishes (qty : ℕ) (d : Drawn) (random : Bytes) (outcome : Outcome) : Type 0 where
  pub used : Bytes
  pub left : Bytes
  pub parts : random ≡ used ++ left
  pub quantity : length d.str + length (filter accepts used) ≡ qty
  pub outcome_lem :
      outcome
      ≡ done (record {
        str = d.str ++ filter accepts used;
        rej = d.rej + length (filter rejects used);
        acc = d.acc + length (filter accepts used);
      })

record-eq :
    {s s' : Bytes} {r r' a a' : ℕ}
    → s ≡ s'
    → r ≡ r'
    → a ≡ a'
    → done (record { str = s; rej = r; acc = a }) ≡ done (record { str = s'; rej = r'; acc = a' })
record-eq h k l = cc

draw_last :
    (qty : ℕ) (d : Drawn) (c : ℕ) (random : Bytes)
    → accepts c ≡ true
    → length d.str + 1 ≡ qty
    → draw qty d (c ∷ random) ≡ done (record d { str = d.str ++ c ∷ []; acc = d.acc + 1 })
unfolding draw
draw_last qty d c random e h = rw e (ground (arith, h, length-append d.str (c ∷ [])))

draw_more :
    (qty : ℕ) (d : Drawn) (c : ℕ) (random : Bytes)
    → accepts c ≡ true
    → length d.str + 1 < qty
    → draw qty d (c ∷ random)
      ≡ draw qty (record d { str = d.str ++ c ∷ []; acc = d.acc + 1 }) random
unfolding draw
draw_more qty d c random e h = rw e (ground (arith, h, length-append d.str (c ∷ [])))

draw_other :
    (qty : ℕ) (d : Drawn) (c : ℕ) (random : Bytes)
    → accepts c ≡ false
    → length d.str < qty
    → draw qty d (c ∷ random) ≡ draw qty (record d { rej = d.rej + 1 }) random
unfolding draw
draw_other qty d c random e h = rw e (ground (arith, h))

used_more :
    (qty : ℕ) (d : Drawn) (c : ℕ) (random : Bytes) (o : Outcome)
    → accepts c ≡ true
    → Finishes qty (record d { str = d.str ++ c ∷ []; acc = d.acc + 1 }) random o
    → Finishes qty d (c ∷ random) o
used_more qty d c random o e f = record {
  used = c ∷ f.used;
  left = f.left;
  parts = ap (◌∷◌ c) f.parts;
  quantity = rw e (omega (arith, f.quantity, length-append d.str (c ∷ [])));
  outcome_lem =
      f.outcome_lem
      ∙ rw e (record-eq (append_assoc d.str (c ∷ []) (filter accepts f.used)) refl (omega arith));
}

used_other :
    (qty : ℕ) (d : Drawn) (c : ℕ) (random : Bytes) (o : Outcome)
    → accepts c ≡ false
    → Finishes qty (record d { rej = d.rej + 1 }) random o
    → Finishes qty d (c ∷ random) o
used_other qty d c random o e f = record {
  used = c ∷ f.used;
  left = f.left;
  parts = ap (◌∷◌ c) f.parts;
  quantity = rw e f.quantity;
  outcome_lem = f.outcome_lem ∙ rw e (record-eq refl (omega arith) refl);
}

draw-Finishes :
    (qty : ℕ) (d : Drawn) (random : Bytes)
    → length d.str < qty
    → qty ≤ length d.str + length (filter accepts random)
    → Finishes qty d random (draw qty d random)
draw-Finishes qty d [] h k = absurd (omega (arith, h, k))
draw-Finishes qty d (c ∷ random) h k = elim (Bool-cases (accepts c)) [
  | inl e ↦ elim (dec_lt (length d.str + 1) qty) [
    | yes l ↦
        let d' = record d { str = d.str ++ c ∷ []; acc = d.acc + 1 } in
        rw (draw_more qty d c random e l) (
          used_more qty d c random (draw qty d' random) e (
            draw-Finishes qty d' random (omega (arith, l, length-append d.str (c ∷ [])))
              (omega (arith, (rw e at k), length-append d.str (c ∷ [])))))
    | no l ↦ record {
      used = c ∷ [];
      left = random;
      parts = refl;
      quantity = rw e (omega (arith, l, h));
      outcome_lem =
          draw_last qty d c random e (omega (arith, l, h))
          ∙ rw e (record-eq refl (omega arith) refl);
    }
  ]
  | inr e ↦ rw (draw_other qty d c random e h) (
      used_other qty d c random (draw qty (record d { rej = d.rej + 1 }) random) e
        (draw-Finishes qty (record d { rej = d.rej + 1 }) random h (rw e at k)))
]

-- For a positive quantity, and at least as many bytes from 32 to 126 in what is read,
-- devranfifo.c of hw3 ends: it uses a beginning of the bytes that has exactly the quantity of
-- them, has stored these in order, and has counted them and, as rejected, all others it used.
pub devranfifo-Finishes :
    (qty : ℕ) (random : Bytes)
    → 0 < qty
    → qty ≤ length (filter accepts random)
    → Finishes qty nothing random (devranfifo qty random)
unfolding devranfifo
devranfifo-Finishes qty random h k = draw-Finishes qty nothing random h (omega (arith, k))
