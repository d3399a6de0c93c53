-- ===== src/Ipc/Operating.antt =====
-- What semop.c does with the entries.
use cs507_unix_programming.Prelude.{
  ℕ, zero, suc, ◌+◌, ◌%◌, List, [], ◌∷◌, ◌++◌, map, Bool, true, false, ◌&&◌, none, some,
  if◌then◌else◌, ltb, leb, length, take, ◌≡◌, refl, sym, arith, Bool-cases, inl, inr, append-nil,
  append_assoc, lt→ltb,
}
use cs507_unix_programming.Ipc.Operation.{
  max_ops, Sembuf, Entry, Outcome, undefined, exits, calls, flags_of, sembuf_of, enter, main,
}

-- The flags of an entry are one of the four.
abbrev pub known : Entry → Bool
known e = leb e.flags 3

abbrev pub all_known : List Entry → Bool
all_known [] = true
all_known (e ∷ es) = known e && all_known es

-- What is asked of the kernel for an entry: bit 0 of its flags is IPC_NOWAIT, bit 1 SEM_UNDO.
abbrev pub asked : Entry → Sembuf
asked e = sembuf_of e (leb 1 (e.flags % 2), leb 2 e.flags)

abbrev pub verdict : (semid left : ℕ) (ops : List Sembuf) → List Entry → Outcome
verdict semid left ops es =
    if leb (length es) left
    then (if all_known es then calls semid (ops ++ map asked es) else exits)
    else (if all_known (take left es) then undefined else exits)

flags-known :
    (e : Entry) → known e ≡ true → flags_of e.flags ≡ some (leb 1 (e.flags % 2), leb 2 e.flags)
flags-known e h = ground (arith, h)

flags-unknown : (e : Entry) → known e ≡ false → flags_of e.flags ≡ none
flags-unknown e h = ground (arith, h)

leb-suc : (a b : ℕ) → leb (suc a) (suc b) ≡ leb a b
leb-suc a b = ground arith

if_same : (b : Bool) (o : Outcome) → (if b then o else o) ≡ o
if_same true o = refl
if_same false o = refl

enter-verdict :
    (semid i left : ℕ) (ops : List Sembuf) (es : List Entry)
    → i + left ≡ max_ops
    → enter semid i ops es ≡ verdict semid left ops es
unfolding enter
enter-verdict semid i left ops [] h =
    let z : leb 0 left ≡ true = ground arith in rw (z, append-nil ops)
enter-verdict semid i zero ops (e ∷ es) h =
    let full : ltb i max_ops ≡ false = ground (arith, h) in
    let over : leb (suc (length es)) 0 ≡ false = ground arith in rw (full, over)
enter-verdict semid i (suc left) ops (e ∷ es) h =
    let room : ltb i max_ops ≡ true = lt→ltb _ _ (omega (arith, h)) in
    elim (Bool-cases (known e)) [
      | inl k ↦
          rw (room, flags-known e k, leb-suc (length es) left, k)
            (rw (append_assoc ops (asked e ∷ []) (map asked es)) at
              (enter-verdict semid (i + 1) left (ops ++ asked e ∷ []) es (omega (arith, h))))
      | inr k ↦
          rw (room, flags-unknown e k, leb-suc (length es) left, k)
            (sym (if_same (leb (length es) left) exits))
    ]

-- For every list of entries: with at most ten, semop.c calls the kernel with all of them in
-- order, flag bit 0 as IPC_NOWAIT and bit 1 as SEM_UNDO, or exits if one has flags above 3;
-- with more than ten it exits if one of the first ten has such flags, and else is undefined.
pub main-verdict : (semid : ℕ) (es : List Entry) → main semid es ≡ verdict semid max_ops [] es
unfolding main
main-verdict semid es = enter-verdict semid 0 max_ops [] es (omega arith)
