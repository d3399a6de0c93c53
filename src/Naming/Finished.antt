-- ===== src/Naming/Finished.antt =====
-- What every run does to the list, and what is in it at the end.
use mathlib.Core.Path.{subst}
use cs507_unix_programming.Prelude.{
  ℕ, ◌+◌, ◌≤◌, Bool, true, false, some, length, All, ◌≡◌, refl, inl, inr, arith, ◌&&◌, ◌||◌, sym,
  ap, ◌∙◌,
}
use cs507_unix_programming.Naming.{
  maxcnt, Shared, Pc, ended, proc, State, as_a, as_b, step, Reach, here, later,
}
use cs507_unix_programming.Naming.Numbering.{outcome-cases, no_step, some-inj}
use cs507_unix_programming.Naming.Listing.{
  in_flight, allocating, inside, Named, Complete, Counted, Two, proc-Two, held_once,
}

swapped : (n : ℕ) (p q : Pc) → n + in_flight p + in_flight q ≡ n + in_flight q + in_flight p
swapped n p q = omega arith

flip_a : (m : Shared) (p q : Pc) → Two true m p q → Two false m q p
flip_a m p q v = record {
  counter = omega (arith, v.counter);
  own = subst (λ n. Counted n q) (swapped (length m.list) p q) v.other;
  other = subst (λ n. Counted n p) (swapped (length m.list) p q) v.own;
  own_lock = v.other_lock;
  other_lock = v.own_lock;
  own_elements = v.other_elements;
  other_elements = v.own_elements;
  free = λ h k. v.free k h;
}

flip_b : (m : Shared) (p q : Pc) → Two false m p q → Two true m q p
flip_b m p q v = record {
  counter = omega (arith, v.counter);
  own = subst (λ n. Counted n q) (swapped (length m.list) p q) v.other;
  other = subst (λ n. Counted n p) (swapped (length m.list) p q) v.own;
  own_lock = v.other_lock;
  other_lock = v.own_lock;
  own_elements = v.other_elements;
  other_elements = v.own_elements;
  free = λ h k. v.free k h;
}

step-Two :
    (who below_half : Bool) (s : State) {t : State}
    → Two true s.shared s.a s.b
    → step who below_half s ≡ some t
    → Two true t.shared t.a t.b
unfolding step
step-Two true c s v h = elim (outcome-cases (proc true c s.a s.shared)) [
  | inl e ↦ absurd (no_step (ap (as_a s) (sym e) ∙ h))
  | inr (m, p, e) ↦
      subst (λ (u : State). Two true u.shared u.a u.b) (some-inj (ap (as_a s) (sym e) ∙ h))
        (proc-Two true c s.a s.b s.shared v e)
]
step-Two false c s v h = elim (outcome-cases (proc false c s.b s.shared)) [
  | inl e ↦ absurd (no_step (ap (as_b s) (sym e) ∙ h))
  | inr (m, p, e) ↦
      subst (λ (u : State). Two true u.shared u.a u.b) (some-inj (ap (as_b s) (sym e) ∙ h))
        (flip_b m p s.a (proc-Two false c s.b s.a s.shared (flip_a s.shared s.a s.b v) e))
]

run-Two : {s : State} → Reach s → Two true s.shared s.a s.b
run-Two here = record {
  counter = omega arith;
  own = tt;
  other = tt;
  own_lock = refl;
  other_lock = refl;
  own_elements = λ h. cc;
  other_elements = λ h. cc;
  free = λ h k. tt;
}
run-Two (later {s} who c r h) = step-Two who c s (run-Two r) h

-- In every state that the threads of thrdmutex.c reach in any order, they are never both inside
-- the mutex, and every element of the list has a name, save the last one while a thread inside
-- the mutex is about to name it.
pub list-Complete :
    {s : State}
    → Reach s
    → ((inside s.a && inside s.b) ≡ false)
      × Complete (allocating s.a || allocating s.b) s.shared.list
list-Complete {s} r = let v = run-Two r in exclusive_lem s.shared s.a s.b v
  where
    exclusive_lem :
        (m : Shared) (p q : Pc)
        → Two true m p q
        → ((inside p && inside q) ≡ false) × Complete (allocating p || allocating q) m.list
    exclusive_lem m p q v = (
      ground (arith, v.own_lock, v.other_lock, held_once true m.mutex),
      ground (
        arith,
        v.own_lock,
        v.other_lock,
        held_once true m.mutex,
        v.own_elements,
        v.other_elements,
        v.free,
      ),
    )

-- Whenever both threads of thrdmutex.c have ended, every element of the list has a name, and
-- there are at least MAXCNT of them, although the counter is outside the mutex and increments
-- of it may be lost.
pub names_enough :
    {s : State}
    → Reach s
    → s.a ≡ ended
    → s.b ≡ ended
    → All Named s.shared.list × (maxcnt ≤ length s.shared.list)
names_enough {s} r h k = let v = run-Two r in ground (arith, v.free, v.own, h, k)
