-- ===== src/Naming/Listing.antt =====
-- The list under the mutex: every element gets its own name, and none is missing at the end.

use cs507_unix_programming.Prelude.{
  ℕ, ◌+◌, ◌≤◌, List, [], ◌∷◌, Bool, true, false, not, Option, none, some, length, All, ◌≡◌, refl,
  arith, ap,
}
use cs507_unix_programming.Naming.{
  Name, Shared, Pc, tests, draws, loads, stores, locks, links, allocates, unlocks, ended, name_tail,
  proc,
}

-- A thread that has counted, and has not linked its element yet.
abbrev pub in_flight : Pc → ℕ
in_flight (locks number) = 1
in_flight (links number) = 1
in_flight p = 0

abbrev pub allocating : Pc → Bool
allocating (allocates number) = true
allocating p = false

abbrev pub inside : Pc → Bool
inside (links number) = true
inside (allocates number) = true
inside unlocks = true
inside p = false

abbrev pub held : (who : Bool) → Option Bool → Bool
held who none = false
held true (some owner) = owner
held false (some owner) = not owner

abbrev pub Named : Option Name → Type 0
Named none = ⊥
Named (some name) = Unit

-- All elements have names, save the last one, if some thread is about to name it.
abbrev pub Complete : (naming : Bool) → List (Option Name) → Type 0
Complete false list = All Named list
Complete true [] = ⊥
Complete true (none ∷ list) = All Named list
Complete true (some name ∷ list) = ⊥

-- What a thread knows of the number of elements.
abbrev pub Counted : (elements : ℕ) → Pc → Type 0
Counted elements (stores number) = number ≤ elements
Counted elements ended = 10 ≤ elements
Counted elements p = Unit

-- The thread `who` at `p`, and the other one at `q`.
pub record Two (who : Bool) (m : Shared) (p q : Pc) : Type 0 where
  pub counter : m.ctr ≤ length m.list + in_flight p + in_flight q
  pub own : Counted (length m.list + in_flight p + in_flight q) p
  pub other : Counted (length m.list + in_flight p + in_flight q) q
  pub own_lock : inside p ≡ held who m.mutex
  pub other_lock : inside q ≡ held (not who) m.mutex
  pub own_elements : inside p ≡ true → Complete (allocating p) m.list
  pub other_elements : inside q ≡ true → Complete (allocating q) m.list
  pub free : inside p ≡ false → inside q ≡ false → Complete false m.list

name_tail-Complete :
    (name : Name) (list : List (Option Name))
    → Complete true list
    → Complete false (name_tail name list)
name_tail-Complete name [] h = absurd h
name_tail-Complete name (none ∷ list) h = (tt, h)
name_tail-Complete name (some n ∷ list) h = absurd h

length-name_tail :
    (name : Name) (list : List (Option Name)) → length (name_tail name list) ≡ length list
length-name_tail name [] = refl
length-name_tail name (e ∷ list) = refl

Counted-more : (m n : ℕ) (q : Pc) → m ≤ n → Counted m q → Counted n q
Counted-more m n q l h = ground arith

pub held_once :
    (who : Bool) (mutex : Option Bool) → held who mutex ≡ true → held (not who) mutex ≡ false
held_once true none h = refl
held_once true (some owner) h = ap not h
held_once false none h = refl
held_once false (some true) h = cc
held_once false (some false) h = refl

held_own : (who : Bool) → (held who (some who) ≡ true) × (held (not who) (some who) ≡ false)
held_own true = (refl, refl)
held_own false = (refl, refl)

held_free : (who : Bool) → (held who none ≡ false) × (held (not who) none ≡ false)
held_free true = (refl, refl)
held_free false = (refl, refl)

pub proc-Two :
    (who below_half : Bool) (p q : Pc) (m : Shared) {m' : Shared} {p' : Pc}
    → Two who m p q
    → proc who below_half p m ≡ some (m', p')
    → Two who m' p' q
proc-Two who c tests q m v h = ground (arith, v, h)
proc-Two who c draws q m v h = ground (arith, v, h)
proc-Two who c loads q m v h = ground (arith, v, h)
proc-Two who c (stores number) q m v h = ground (
  arith,
  v,
  h,
  Counted-more (length m.list + 0 + in_flight q) (length m.list + 1 + in_flight q) q (omega arith)
      v.other,
)
proc-Two who c (locks number) q m v h = ground (arith, v, h, held_free who, held_own who)
proc-Two who c (links number) q m v h = ground (arith, v, h, held_once who m.mutex)
proc-Two who c (allocates number) q m v h = ground (
  arith,
  v,
  h,
  held_once who m.mutex,
  name_tail-Complete (who, number) m.list,
  length-name_tail (who, number) m.list,
)
proc-Two who c unlocks q m v h = ground (arith, v, h, held_free who, held_once who m.mutex)
proc-Two who c ended q m v h = cc
