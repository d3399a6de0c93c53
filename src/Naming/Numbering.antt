-- ===== src/Naming/Numbering.antt =====
-- The numbers of the names stay small, whatever the order of the threads.
use mathlib.Core.Path.{subst}
use cs507_unix_programming.Prelude.{
  ℕ, ◌+◌, ◌≤◌, List, [], ◌∷◌, Bool, true, false, Option, none, some, All, ◌≡◌, refl, ◌⊎◌, inl, inr,
  arith, sym, ap, ◌∙◌,
}
use cs507_unix_programming.Naming.{
  maxcnt, Name, Shared, Pc, tests, draws, loads, stores, locks, links, allocates, unlocks, ended,
  name_tail, proc, State, as_a, as_b, step, Reach, here, later,
}

-- Whether a thread has seen a counter below the limit, and has not stored yet.
abbrev pub pending : Pc → ℕ
pending draws = 1
pending loads = 1
pending (stores number) = 1
pending p = 0

-- What holds of the number that a thread has, where so many threads are pending.
abbrev pub Small : (ctr pending : ℕ) → Pc → Type 0
Small ctr waiting (stores number) = (number + waiting ≤ 11) × ((number ≤ 9) ⊎ (10 ≤ ctr))
Small ctr waiting (locks number) = number ≤ 10
Small ctr waiting (links number) = number ≤ 10
Small ctr waiting (allocates number) = number ≤ 10
Small ctr waiting p = Unit

abbrev pub Fits : Option Name → Type 0
Fits none = Unit
Fits (some (who, number)) = number ≤ 10

name_tail-Fits :
    (who : Bool) (number : ℕ) (list : List (Option Name))
    → number ≤ 10
    → All Fits list
    → All Fits (name_tail (who, number) list)
name_tail-Fits who number [] h k = tt
name_tail-Fits who number (e ∷ list) h k = (h, k.1)

-- A step of the thread at `p`, where the other one is at `q`.
record One (m : Shared) (p q : Pc) : Type 0 where
  room : m.ctr + pending p + pending q ≤ 11
  own : Small m.ctr (pending p + pending q) p
  other : Small m.ctr (pending p + pending q) q
  listed : All Fits m.list

pub no_step : {t : State} → none ≡ some t → ⊥
no_step e = cc

pub some-inj : {s t : State} → some s ≡ some t → s ≡ t
some-inj e = cc

proc-One :
    (who below_half : Bool) (p q : Pc) (m : Shared) {m' : Shared} {p' : Pc}
    → One m p q
    → proc who below_half p m ≡ some (m', p')
    → One m' p' q
proc-One who c tests q m v h = ground (arith, v, h)
proc-One who c draws q m v h = ground (arith, v, h)
proc-One who c loads q m v h = ground (arith, v, h)
proc-One who c (stores number) q m v h = ground (arith, v, h)
proc-One who c (locks number) q m v h = ground (arith, v, h)
proc-One who c (links number) q m v h = ground (arith, v, h)
proc-One who c (allocates number) q m v h =
    ground (arith, v, h, name_tail-Fits who number m.list v.own v.listed)
proc-One who c unlocks q m v h = ground (arith, v, h)
proc-One who c ended q m v h = cc

flip : (m : Shared) (p q : Pc) → One m p q → One m q p
flip m p q v = record {
  room = omega (arith, v.room);
  own = subst (λ n. Small m.ctr n q) swapped v.other;
  other = subst (λ n. Small m.ctr n p) swapped v.own;
  listed = v.listed;
}
  where
    swapped : pending p + pending q ≡ pending q + pending p
    swapped = omega arith

pub outcome-cases :
    (o : Option (Shared × Pc)) → (o ≡ none) ⊎ ((m : Shared) × (p : Pc) × (o ≡ some (m, p)))
outcome-cases none = inl refl
outcome-cases (some (m, p)) = inr (m, p, refl)

step-One :
    (who below_half : Bool) (s : State) {t : State}
    → One s.shared s.a s.b
    → step who below_half s ≡ some t
    → One t.shared t.a t.b
unfolding step
step-One true c s v h = elim (outcome-cases (proc true c s.a s.shared)) [
  | inl e ↦ absurd (no_step (ap (as_a s) (sym e) ∙ h))
  | inr (m, p, e) ↦
      subst (λ (u : State). One u.shared u.a u.b) (some-inj (ap (as_a s) (sym e) ∙ h))
        (proc-One true c s.a s.b s.shared v e)
]
step-One false c s v h = elim (outcome-cases (proc false c s.b s.shared)) [
  | inl e ↦ absurd (no_step (ap (as_b s) (sym e) ∙ h))
  | inr (m, p, e) ↦
      subst (λ (u : State). One u.shared u.a u.b) (some-inj (ap (as_b s) (sym e) ∙ h))
        (flip m p s.a (proc-One false c s.b s.a s.shared (flip s.shared s.a s.b v) e))
]

run-One : {s : State} → Reach s → One s.shared s.a s.b
run-One here = record { room = omega arith; own = tt; other = tt; listed = tt }
run-One (later {s} who c r h) = step-One who c s (run-One r) h

-- The number in the buffer of a thread, or 0.
abbrev pub in_hand : Pc → ℕ
in_hand (stores number) = number
in_hand (locks number) = number
in_hand (links number) = number
in_hand (allocates number) = number
in_hand p = 0

Small_in_hand :
    (ctr waiting : ℕ) (p : Pc) → pending p ≤ waiting → Small ctr waiting p → in_hand p ≤ 10
Small_in_hand ctr waiting p l h = ground arith

-- In every state that the threads of thrdmutex.c reach in any order, the number of each name in
-- the list and the number that a thread has in its buffer are at most MAXCNT.
pub names_fit :
    {s : State} → Reach s → All Fits s.shared.list × (in_hand s.a ≤ maxcnt) × (in_hand s.b ≤ maxcnt)
names_fit {s} r =
    let v = run-One r in
    let both = pending s.a + pending s.b in
    (
      v.listed,
      Small_in_hand s.shared.ctr both s.a (omega arith) v.own,
      Small_in_hand s.shared.ctr both s.b (omega arith) v.other,
    )
