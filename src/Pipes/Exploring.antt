-- ===== src/Pipes/Exploring.antt =====
-- All runs of a few processes, one call after the other, in any order.
use native.Mathlib.Decide.{dec_lt}
use mathlib.Core.Path.{subst}
use cs507_unix_programming.Prelude.{
  ℕ, zero, suc, ◌≤◌, ◌<◌, List, [], ◌∷◌, Bool, true, false, ◌&&◌, Option, none, some, length, ◌≡◌,
  refl, ap, sym, ◌∙◌, arith, get_or,
}
use cs507_unix_programming.Pipes.{Op, Process, State, call, step, ended}

module _ (code : ℕ → List Op) where
  -- So many calls lead from the one state to the other.
  pub data Run : ℕ → State → State → Type 0 where
    here : (s : State) → Run zero s s
    after : (n k : ℕ) {s t u : State} → step code k s ≡ some t → Run n t u → Run (suc n) s u

  -- No process can make a call.
  abbrev pub Stuck : State → Type 0
  Stuck s = (k : ℕ) → step code k s ≡ none

  -- The states after a call of one of the first `n` processes.
  abbrev pub successors : (n : ℕ) → State → List State
  successors zero s = []
  successors (suc n) s = elim (step code n s) [
    | none ↦ successors n s
    | some t ↦ t ∷ successors n s
  ]

  abbrev pub all : (State → Bool) → List State → Bool
  all test [] = true
  all test (s ∷ ss) = test s && all test ss

  -- Every run ends within so many calls, in a state where the test holds.
  unfoldable pub always : (test : State → Bool) → (calls : ℕ) → State → Bool
  always test zero s = elim (successors (length s.processes) s) [ [] ↦ test s | t ∷ ts ↦ false ]
  always test (suc calls) s = elim (successors (length s.processes) s) [
    | [] ↦ test s
    | t ∷ ts ↦ all (always test calls) (t ∷ ts)
  ]

  and_left : (a b : Bool) → (a && b) ≡ true → a ≡ true
  and_left true b h = refl
  and_left false b h = h

  and_right : (a b : Bool) → (a && b) ≡ true → b ≡ true
  and_right true b h = h
  and_right false b h = cc

  some-inj : {u v : State} → some u ≡ some v → u ≡ v
  some-inj e = cc

  all-successors :
      (test : State → Bool) (n k : ℕ) (s : State) {t : State}
      → k < n
      → step code k s ≡ some t
      → all test (successors n s) ≡ true
      → test t ≡ true
  all-successors test zero k s l e h = absurd (omega (arith, l))
  all-successors test (suc n) k s {t} l e h = elim (dec_lt k n) [
    | yes m ↦ all-successors test n k s m e (later (step code n s) (successors n s) h)
    | no m ↦
        let same : k ≡ n = omega (arith, l, m) in
        first (step code n s) (successors n s) (subst (λ i. step code i s ≡ some t) same e) h
  ]
    where
      later :
          (o : Option State) (ss : List State)
          → all test (elim o [ none ↦ ss | some u ↦ u ∷ ss ]) ≡ true
          → all test ss ≡ true
      later none ss h = h
      later (some u) ss h = and_right (test u) (all test ss) h

      first :
          (o : Option State) (ss : List State)
          → o ≡ some t
          → all test (elim o [ none ↦ ss | some u ↦ u ∷ ss ]) ≡ true
          → test t ≡ true
      first none ss e h = cc
      first (some u) ss e h =
          subst (λ v. test v ≡ true) (some-inj e) (and_left (test u) (all test ss) h)

  get_or-beyond : (ps : List Process) (k : ℕ) → length ps ≤ k → get_or ps k ended ≡ ended
  get_or-beyond [] k h = refl
  get_or-beyond (p ∷ ps) zero h = absurd (omega (arith, h))
  get_or-beyond (p ∷ ps) (suc k) h = get_or-beyond ps k (omega arith)

  step-within : (k : ℕ) (s : State) {t : State} → step code k s ≡ some t → k < length s.processes
  unfolding step
  step-within k s {t} e = elim (dec_lt k (length s.processes)) [
    | yes l ↦ l
    | no l ↦ absurd (nothing (ap next (sym (get_or-beyond s.processes k (omega (arith, l)))) ∙ e))
  ]
    where
      next : Process → Option State
      next p = elim p.script [ [] ↦ none | op ∷ ops ↦ call code k (record p { script = ops }) op s ]

      nothing : {u : State} → none ≡ some u → ⊥
      nothing e = cc

  Stuck-successors : (n : ℕ) (s : State) → Stuck s → successors n s ≡ []
  Stuck-successors zero s h = refl
  Stuck-successors (suc n) s h = rw (h n, successors) (Stuck-successors n s h)

  always-Stuck :
      (test : State → Bool) (calls : ℕ) (s : State)
      → Stuck s
      → always test calls s ≡ true
      → test s ≡ true
  unfolding always
  always-Stuck test zero s h a = rw (Stuck-successors (length s.processes) s h, always) at a
  always-Stuck test (suc calls) s h a = rw (Stuck-successors (length s.processes) s h, always) at a

  always-later :
      (test : State → Bool) (calls k : ℕ) (s : State) {t : State}
      → step code k s ≡ some t
      → always test (suc calls) s ≡ true
      → always test calls t ≡ true
  unfolding always
  always-later test calls k s {t} e a =
      all-successors (always test calls) (length s.processes) k s (step-within k s e) e
        (split (successors (length s.processes) s) a)
    where
      split :
          (ss : List State)
          → (elim ss [ [] ↦ test s | t ∷ ts ↦ all (always test calls) (t ∷ ts) ]) ≡ true
          → all (always test calls) ss ≡ true
      split [] h = refl
      split (t ∷ ts) h = h

  always-none :
      (test : State → Bool) (k : ℕ) (s : State) {t : State}
      → step code k s ≡ some t
      → always test zero s ≡ true
      → ⊥
  unfolding always
  always-none test k s {t} e a =
      let never : (λ (u : State). false) t ≡ true =
        all-successors (λ u. false) (length s.processes) k s (step-within k s e) e
          (split (successors (length s.processes) s) a) in
      absurd (impossible never)
    where
      split :
          (ss : List State)
          → (elim ss [ [] ↦ test s | t ∷ ts ↦ false ]) ≡ true
          → all (λ u. false) ss ≡ true
      split [] h = refl
      split (t ∷ ts) h = cc

      impossible : false ≡ true → ⊥
      impossible e = cc

  -- What the exploration finds holds of every run.
  pub always-Run :
      (test : State → Bool) (calls n : ℕ) (s : State) {t : State}
      → always test calls s ≡ true
      → Run n s t
      → (n ≤ calls) × (Stuck t → test t ≡ true)
  always-Run test calls zero s a (here _) = (omega arith, λ h. always-Stuck test calls s h a)
  always-Run test zero (suc _) s a (after n k e r) = absurd (always-none test k s e a)
  always-Run test (suc calls) (suc _) s a (after n k {t = u} e r) =
      let rest = always-Run test calls n u (always-later test calls k s e a) r in
      (omega (arith, rest.0), rest.1)
