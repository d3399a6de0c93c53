-- ===== src/Rounds/Sharing/Keeping.antt =====
-- What the two threads keep, and what they leave at their ends.
use native.Mathlib.Decide.{dec_lt}
use mathlib.Core.Path.{subst}
use cs507_unix_programming.Prelude.{
  ℕ, ◌+◌, ◌-◌, ◌≤◌, ◌<◌, Bool, true, false, leb, if◌then◌else◌, none, some, ◌==◌, ◌≡◌, refl, ◌⊎◌,
  inl, inr, arith,
}
use cs507_unix_programming.Rounds.Sharing.{
  Pc, locks, takes, lowers, unlocks, ended, loops, State, start, round, do_one_thing,
  do_another_thing, step, Reach, here, later, do_wrap_up,
}

-- Whether a thread holds the lock.
abbrev holds_one : Pc → ℕ
holds_one locks = 0
holds_one (ended x) = 0
holds_one p = 1

abbrev holds_another : Pc → ℕ
holds_another locks = 0
holds_another (ended x) = 0
holds_another (loops x i) = 0
holds_another p = 1

abbrev held : Bool → ℕ
held true = 1
held false = 0

-- Whether a thread is behind its r3--, or behind the test without it.
abbrev took : Pc → ℕ
took locks = 0
took takes = 0
took (lowers x) = 0
took p = 1

-- What a thread starts from, where r3 is `n`.
abbrev pub taken : ℕ → ℕ
taken n = if n == 0 then 1 else n

-- What the rounds before `i` add.
abbrev pub added : ℕ → ℕ
added i = if leb i 1 then 0 else (if i == 2 then 10000 else (if i == 3 then 30000 else 60000))

-- What do_one_thing started from, if it did from `base`.
abbrev FromOne : (base : ℕ) → Pc → Type 0
FromOne base (loops x i) = (x ≡ base + added i) × (i ≤ 4)
FromOne base (unlocks x) = x ≡ base + 60000
FromOne base (ended x) = x ≡ base + 60000
FromOne base p = Unit

abbrev FromAnother : (base : ℕ) → Pc → Type 0
FromAnother base (loops x i) = (x ≡ base + added i) × (i ≤ 4)
FromAnother base (unlocks x) = x ≡ base
FromAnother base (ended x) = x ≡ base + 60000
FromAnother base p = Unit

abbrev rounds_one : Pc → ℕ
rounds_one (loops x i) = i
rounds_one (unlocks x) = 4
rounds_one (ended x) = 4
rounds_one p = 0

abbrev rounds_another : Pc → ℕ
rounds_another (loops x i) = i
rounds_another (ended x) = 4
rounds_another p = 0

abbrev Lowering : (r3 : ℕ) → Pc → Type 0
Lowering r3 (lowers x) = (x ≡ r3) × (0 < r3)
Lowering r3 p = Unit

-- `first` is whether do_one_thing took its number first.
record Inv (n : ℕ) (s : State) : Type 0 where
  lock : holds_one s.one + holds_another s.another ≡ held s.locked
  count_one : s.r1 ≡ rounds_one s.one
  count_another : s.r2 ≡ rounds_another s.another
  rest : s.r3 ≡ n - (took s.one + took s.another)
  lower_one : Lowering s.r3 s.one
  lower_another : Lowering s.r3 s.another
  bases :
      (FromOne (taken n) s.one
        × FromAnother (taken (n - 1)) s.another
        × (took s.another ≤ took s.one))
      ⊎ (FromOne (taken (n - 1)) s.one
          × FromAnother (taken n) s.another
          × (took s.one ≤ took s.another))

step-Inv-one :
    (n : ℕ) (p : Pc) (s : State) {t : State}
    → s.one ≡ p
    → Inv n s
    → do_one_thing s p ≡ some t
    → Inv n t
step-Inv-one n locks s k v h = ground (arith, v, h, k)
step-Inv-one n takes s k v h = ground (arith, v, h, k)
step-Inv-one n (lowers x) s k v h = ground (arith, v, h, k)
step-Inv-one n (loops x i) s k v h = ground (arith, v, h, k)
step-Inv-one n (unlocks x) s k v h = ground (arith, v, h, k)
step-Inv-one n (ended x) s k v h = cc

added-round : (base x i : ℕ) → i < 4 → x ≡ base + added i → round x i ≡ base + added (i + 1)
added-round base x i l h = ground (arith, l, h)

round-Inv :
    (n : ℕ) (s : State) (x i : ℕ)
    → s.another ≡ loops x i
    → Inv n s
    → i < 4
    → Inv n (record s { r2 = s.r2 + 1; another = loops (round x i) (i + 1) })
round-Inv n s x i k v l = record {
  lock = ground (arith, v.lock, k);
  count_one = v.count_one;
  count_another = ground (arith, v.count_another, k);
  rest = ground (arith, v.rest, k);
  lower_one = v.lower_one;
  lower_another = tt;
  bases = elim v.bases [
    | inl b ↦
        let from = at_loop (taken (n - 1)) b.1 in
        inl (
          b.0,
          (added-round (taken (n - 1)) x i l from.0, omega (arith, l)),
          ground (arith, b.2, k),
        )
    | inr b ↦
        let from = at_loop (taken n) b.1 in
        inr (b.0, (added-round (taken n) x i l from.0, omega (arith, l)), ground (arith, b.2, k))
  ];
}
  where
    at_loop : (base : ℕ) → FromAnother base s.another → (x ≡ base + added i) × (i ≤ 4)
    at_loop base f = subst (FromAnother base) k f

leave-Inv :
    (n : ℕ) (s : State) (x i : ℕ)
    → s.another ≡ loops x i
    → Inv n s
    → ¬ (i < 4)
    → Inv n (record s { another = ended x })
leave-Inv n s x i k v l = record {
  lock = ground (arith, v.lock, k);
  count_one = v.count_one;
  count_another = ground (arith, v.count_another, k, four);
  rest = ground (arith, v.rest, k);
  lower_one = v.lower_one;
  lower_another = tt;
  bases = elim v.bases [
    | inl b ↦ inl (b.0, at_end (taken (n - 1)) b.1, ground (arith, b.2, k))
    | inr b ↦ inr (b.0, at_end (taken n) b.1, ground (arith, b.2, k))
  ];
}
  where
    limit : (base : ℕ) → FromAnother base s.another → (x ≡ base + added i) × (i ≤ 4)
    limit base f = subst (FromAnother base) k f

    four : i ≡ 4
    four = elim v.bases [
      | inl b ↦ omega (arith, l, (limit (taken (n - 1)) b.1).1)
      | inr b ↦ omega (arith, l, (limit (taken n) b.1).1)
    ]

    at_end : (base : ℕ) → FromAnother base s.another → x ≡ base + 60000
    at_end base f = ground (arith, limit base f, four)

loop_on :
    (s : State) (x i : ℕ) {t : State}
    → i < 4
    → do_another_thing s (loops x i) ≡ some t
    → record s { r2 = s.r2 + 1; another = loops (round x i) (i + 1) } ≡ t
loop_on s x i l h = ground (arith, l, h)

loop_off :
    (s : State) (x i : ℕ) {t : State}
    → ¬ (i < 4)
    → do_another_thing s (loops x i) ≡ some t
    → record s { another = ended x } ≡ t
loop_off s x i l h = ground (arith, l, h)

step-Inv-another :
    (n : ℕ) (p : Pc) (s : State) {t : State}
    → s.another ≡ p
    → Inv n s
    → do_another_thing s p ≡ some t
    → Inv n t
step-Inv-another n locks s k v h = ground (arith, v, h, k)
step-Inv-another n takes s k v h = ground (arith, v, h, k)
step-Inv-another n (lowers x) s k v h = ground (arith, v, h, k)
step-Inv-another n (loops x i) s k v h = elim (dec_lt i 4) [
  | yes l ↦ subst (Inv n) (loop_on s x i l h) (round-Inv n s x i k v l)
  | no l ↦ subst (Inv n) (loop_off s x i l h) (leave-Inv n s x i k v l)
]
step-Inv-another n (unlocks x) s k v h = ground (arith, v, h, k)
step-Inv-another n (ended x) s k v h = cc

start-Inv : (n : ℕ) → Inv n (start n)
start-Inv n = record {
  lock = refl;
  count_one = refl;
  count_another = refl;
  rest = omega arith;
  lower_one = tt;
  lower_another = tt;
  bases = inl (tt, tt, omega arith);
}

run-Inv : (n : ℕ) {s : State} → Reach n s → Inv n s
unfolding step
run-Inv n here = start-Inv n
run-Inv n (later {s} true r h) = step-Inv-one n s.one s refl (run-Inv n r) h
run-Inv n (later {s} false r h) = step-Inv-another n s.another s refl (run-Inv n r) h

stuck_lem :
    (n : ℕ) (s : State)
    → Inv n s
    → step true s ≡ none
    → step false s ≡ none
    → (rounds_one s.one ≡ 4) × (rounds_another s.another ≡ 4)
unfolding step
stuck_lem n s v h k = ground (arith, v, h, k)

-- Where neither thread of hw11.c can go on, the total of do_wrap_up is 8.
pub stuck_wrapped :
    (n : ℕ) {s : State}
    → Reach n s
    → step true s ≡ none
    → step false s ≡ none
    → do_wrap_up s.r1 s.r2 ≡ 8
stuck_wrapped n {s} r h k =
    let v = run-Inv n r in let e = stuck_lem n s v h k in ground (arith, v, e)
