-- ===== src/Threshold/Waiting.antt =====
-- What lets the watching thread go.
use mathlib.Core.Path.{subst}
use cs507_unix_programming.Prelude.{
  ℕ, ◌+◌, ◌≤◌, Bool, true, false, none, some, ◌≡◌, ◌≢◌, refl, arith, ◌∙◌, ◌⊎◌, inl, inr,
  if◌then◌else◌, ltb, leb, Bool-cases,
}
use cs507_unix_programming.Threshold.{
  IncPc, WatchPc, MainPc, State, woken, joined, inc, watch, main, Event, first_calls, second_calls,
  watcher_calls, main_calls, wakes_up, step, Reach, here, later,
}

-- Between the lock and the unlock of the mutex.
abbrev inside : IncPc → ℕ
inside (IncPc.reads i) = 1
inside (IncPc.writes i c) = 1
inside (IncPc.tests i) = 1
inside (IncPc.resets i) = 1
inside (IncPc.unlocks i) = 1
inside pc = 0

-- Where the count may stand at the threshold.
abbrev late : IncPc → ℕ
late (IncPc.tests i) = 1
late (IncPc.resets i) = 1
late pc = 0

abbrev loaded : IncPc → ℕ
loaded (IncPc.writes i c) = c
loaded pc = 0

abbrev watching : WatchPc → ℕ
watching WatchPc.tests = 1
watching WatchPc.unlocks = 1
watching pc = 0

-- The watcher has found the count above the limit.
abbrev gone : WatchPc → ℕ
gone WatchPc.unlocks = 1
gone WatchPc.returned = 1
gone pc = 0

abbrev announcing : MainPc → ℕ
announcing (MainPc.locks k) = 1
announcing (MainPc.signals k) = 1
announcing (MainPc.unlocks k) = 1
announcing pc = 0

abbrev held : Bool → ℕ
held true = 1
held false = 0

-- Before main sets the count.
record Quiet (s : State) : Type 0 where
  alone : inside s.first + inside s.second + watching s.watcher ≡ held s.locked
  below : s.count ≤ 11 + late s.first + late s.second
  first_below : loaded s.first ≤ 11
  second_below : loaded s.second ≤ 11
  waits : gone s.watcher ≡ 0
  unannounced : announcing s.main_pc ≡ 0

held_bound : (b : Bool) → held b ≤ 1
held_bound b = ground arith

late-le-inside : (pc : IncPc) → late pc ≤ inside pc
late-le-inside pc = ground arith

first-Quiet :
    {t : State} (pc : IncPc) (s : State)
    → s.first ≡ pc
    → Quiet s
    → inc (λ p u. record u { first = p }) pc s ≡ some t
    → Quiet t
first-Quiet IncPc.enters s e q h = ground arith
first-Quiet (IncPc.stores_running r) s e q h = ground arith
first-Quiet (IncPc.top i) s e q h = ground arith
first-Quiet (IncPc.locks i) s e q h = ground arith
first-Quiet (IncPc.reads i) s e q h = ground (arith, late-le-inside s.second)
first-Quiet (IncPc.writes i c) s e q h = ground (arith, late-le-inside s.second)
first-Quiet (IncPc.tests i) s e q h = ground (arith, late-le-inside s.second)
first-Quiet (IncPc.resets i) s e q h = ground arith
first-Quiet (IncPc.unlocks i) s e q h = ground arith
first-Quiet IncPc.returned s e q h = cc

second-Quiet :
    {t : State} (pc : IncPc) (s : State)
    → s.second ≡ pc
    → Quiet s
    → inc (λ p u. record u { second = p }) pc s ≡ some t
    → Quiet t
second-Quiet IncPc.enters s e q h = ground arith
second-Quiet (IncPc.stores_running r) s e q h = ground arith
second-Quiet (IncPc.top i) s e q h = ground arith
second-Quiet (IncPc.locks i) s e q h = ground arith
second-Quiet (IncPc.reads i) s e q h = ground (arith, late-le-inside s.first)
second-Quiet (IncPc.writes i c) s e q h = ground (arith, late-le-inside s.first)
second-Quiet (IncPc.tests i) s e q h = ground (arith, late-le-inside s.first)
second-Quiet (IncPc.resets i) s e q h = ground arith
second-Quiet (IncPc.unlocks i) s e q h = ground arith
second-Quiet IncPc.returned s e q h = cc

watch-Quiet :
    {t : State} (pc : WatchPc) (s : State)
    → s.watcher ≡ pc
    → Quiet s
    → watch pc s ≡ some t
    → Quiet t
watch-Quiet WatchPc.locks s e q h = ground arith
watch-Quiet WatchPc.tests s e q h = ground (arith, late-le-inside s.first, late-le-inside s.second)
watch-Quiet WatchPc.asleep s e q h = cc
watch-Quiet WatchPc.unlocks s e q h = absurd (ground arith)
watch-Quiet WatchPc.returned s e q h = cc

some-inj : {s t : State} → some s ≡ some t → s ≡ t
some-inj e = cc

none-ne-some : {s : State} → none ≡ some s → ⊥
none-ne-some e = cc

goes_on-announcing :
    (k : ℕ) (over more : Bool)
    → announcing
        (if over then MainPc.sets k else (if more then MainPc.joins (k + 1) else MainPc.ended))
      ≡ 0
goes_on-announcing k true more = refl
goes_on-announcing k false true = refl
goes_on-announcing k false false = refl

Quiet-main_pc :
    (s : State) (pc : MainPc) → announcing pc ≡ 0 → Quiet s → Quiet (record s { main_pc = pc })
Quiet-main_pc s pc e q = record {
  alone = q.alone;
  below = q.below;
  first_below = q.first_below;
  second_below = q.second_below;
  waits = q.waits;
  unannounced = e;
}

main-Quiet :
    {t : State} (pc : MainPc) (s : State)
    → s.main_pc ≡ pc
    → Quiet s
    → main pc s ≡ some t
    → (t.announced ≡ true) ⊎ Quiet t
main-Quiet (MainPc.joins k) s e q h = elim (Bool-cases (joined k s)) [
  | inl j ↦ inr (subst Quiet (some-inj (rw j at h)) (Quiet-main_pc s (MainPc.loads k) refl q))
  | inr j ↦ absurd (none-ne-some (rw j at h))
]
main-Quiet (MainPc.loads k) s e q h = inr (ground arith)
main-Quiet (MainPc.stores k r) s e q h = inr (ground arith)
main-Quiet (MainPc.tests k) s e q h = inr (
    subst Quiet (some-inj h)
      (Quiet-main_pc s _ (goes_on-announcing k (leb s.running 3) (ltb (k + 1) 3)) q))
main-Quiet (MainPc.sets k) s e q h = inl (ground arith)
main-Quiet (MainPc.locks k) s e q h = absurd (ground arith)
main-Quiet (MainPc.signals k) s e q h = absurd (ground arith)
main-Quiet (MainPc.unlocks k) s e q h = absurd (ground arith)
main-Quiet MainPc.ended s e q h = cc

wake-Quiet :
    (s : State) (pc : WatchPc) → s.watcher ≡ pc → Quiet s → Quiet (record s { watcher = woken pc })
wake-Quiet s WatchPc.locks e q = ground arith
wake-Quiet s pc e q = ground arith

-- What main has announced stays so.
first-announced :
    {t : State} (pc : IncPc) (s : State)
    → inc (λ p u. record u { first = p }) pc s ≡ some t
    → t.announced ≡ s.announced
first-announced IncPc.enters s h = ground arith
first-announced pc s h = ground arith

second-announced :
    {t : State} (pc : IncPc) (s : State)
    → inc (λ p u. record u { second = p }) pc s ≡ some t
    → t.announced ≡ s.announced
second-announced IncPc.enters s h = ground arith
second-announced pc s h = ground arith

watch-announced :
    {t : State} (pc : WatchPc) (s : State) → watch pc s ≡ some t → t.announced ≡ s.announced
watch-announced WatchPc.locks s h = ground arith
watch-announced pc s h = ground arith

main-announced :
    {t : State} (pc : MainPc) (s : State)
    → s.announced ≡ true
    → main pc s ≡ some t
    → t.announced ≡ true
main-announced (MainPc.joins k) s a h = ground arith
main-announced pc s a h = ground arith

step-announced :
    {t : State} (e : Event) (s : State)
    → s.announced ≡ true
    → step e s ≡ some t
    → t.announced ≡ true
unfolding step
step-announced first_calls s a h = first-announced s.first s h ∙ a
step-announced second_calls s a h = second-announced s.second s h ∙ a
step-announced watcher_calls s a h = watch-announced s.watcher s h ∙ a
step-announced main_calls s a h = main-announced s.main_pc s a h
step-announced wakes_up s a h = ground arith

step-Quiet :
    {t : State} (e : Event) (s : State)
    → Quiet s
    → step e s ≡ some t
    → (t.announced ≡ true) ⊎ Quiet t
unfolding step
step-Quiet first_calls s q h = inr (first-Quiet s.first s refl q h)
step-Quiet second_calls s q h = inr (second-Quiet s.second s refl q h)
step-Quiet watcher_calls s q h = inr (watch-Quiet s.watcher s refl q h)
step-Quiet main_calls s q h = main-Quiet s.main_pc s refl q h
step-Quiet wakes_up s q h = inr (ground (arith, wake-Quiet s s.watcher refl q))

Reach-Quiet : {s : State} → Reach s → (s.announced ≡ true) ⊎ Quiet s
Reach-Quiet here = inr (omega arith)
Reach-Quiet (later {s} e r h) = elim (Reach-Quiet r) [
  | inl a ↦ inl (step-announced e s a h)
  | inr q ↦ step-Quiet e s q h
]

-- In every state that the threads of thrdcond.c reach in any order, wakeups without a signal
-- included: as long as main has not set the count, it is at most 12, and the watching thread
-- has not found it above its limit, so that no signal of the counting threads lets it return.
pub watcher-waits :
    {s : State}
    → Reach s
    → s.announced ≡ false
    → (s.count ≤ 12) × (s.watcher ≢ WatchPc.unlocks) × (s.watcher ≢ WatchPc.returned)
watcher-waits {s} r f = elim (Reach-Quiet r) [
  | inl a ↦ absurd (ground arith)
  | inr q ↦ quiet_watcher q
]
  where
    quiet_watcher :
        Quiet s → (s.count ≤ 12) × (s.watcher ≢ WatchPc.unlocks) × (s.watcher ≢ WatchPc.returned)
    quiet_watcher q = (
      ground (arith, late-le-inside s.first, late-le-inside s.second, held_bound s.locked),
      (λ e. ground arith),
      (λ e. ground arith),
    )
