-- ===== src/Ipc/Attaching.antt =====
-- What a process stores in shared memory another one shows.
use cs507_unix_programming.Prelude.{
  ℕ, ◌+◌, ◌-◌, ◌≤◌, ◌<◌, ◌^◌, List, [], ◌∷◌, ◌++◌, false, Option, none, some, Bytes, length, ltb,
  ltb→lt, ◌≡◌, ◌⊎◌, ◌↔◌, refl, ap, arith, Bool-cases, inl, inr, length-append, take-length,
}
use cs507_unix_programming.Ipc.Attachment.{between_1_and_4, through_int, attach, attached, is_space}

-- The last character is no blank.
abbrev pub EndsSolid : Bytes → Type 0
EndsSolid [] = Unit
EndsSolid (c ∷ []) = is_space c ≡ false
EndsSolid (c ∷ d ∷ s) = EndsSolid (d ∷ s)

EndsSolid-snoc : (s : Bytes) (c : ℕ) → is_space c ≡ false → EndsSolid (s ++ c ∷ [])
EndsSolid-snoc [] c h = h
EndsSolid-snoc (x ∷ []) c h = h
EndsSolid-snoc (x ∷ y ∷ s) c h = EndsSolid-snoc (y ∷ s) c h

small : (a : ℕ) → a < 2 ^ 64 → through_int a ≡ a → (a < 2 ^ 31) ⊎ (2 ^ 64 - 2 ^ 31 ≤ a)
unfolding through_int
small a h e = elim (Bool-cases (ltb a (2 ^ 31))) [
  | inl s ↦ inl (ltb→lt a (2 ^ 31) s)
  | inr s ↦ inr (ground (arith, h, e))
]

through_int-eq : (a : ℕ) → a < 2 ^ 64 → (through_int a ≡ a) ↔ ((a < 2 ^ 31) ⊎ (2 ^ 64 - 2 ^ 31 ≤ a))
unfolding through_int
through_int-eq a h = (λ e. small a h e, λ s. ground (arith, h))

attach-snoc :
    (o : Option ℕ) (replies : List (Option ℕ)) (a : ℕ)
    → attach o (replies ++ some a ∷ []) ≡ some (through_int a)
unfolding attach
attach-snoc o [] a = refl
attach-snoc o (none ∷ replies) a = attach-snoc o replies a
attach-snoc o (some b ∷ replies) a = attach-snoc (some (through_int b)) replies a

some-inj : {a b : ℕ} → some a ≡ some b → a ≡ b
some-inj e = cc

-- With one to four attachments of which the last succeeds, at an address of 64 bits, shmop.c
-- goes on with that address exactly if it is below 2 ^ 31 or not below 2 ^ 64 - 2 ^ 31.
pub attached-address :
    (count a : ℕ) (replies : List (Option ℕ))
    → length replies + 1 ≡ count
    → count ≤ 4
    → a < 2 ^ 64
    → (attached count (replies ++ some a ∷ []) ≡ some a) ↔ ((a < 2 ^ 31) ⊎ (2 ^ 64 - 2 ^ 31 ≤ a))
unfolding attached
attached-address count a replies e h small_enough =
    let whole : between_1_and_4 count ≡ length replies + 1 = ground (arith, e, h) in
    let all =
      take-length (length replies + 1) (replies ++ some a ∷ [])
        (omega (arith, length-append replies (some a ∷ []))) in
    rw (whole, all, attach-snoc none replies a)
      (
        (λ q. (through_int-eq a small_enough).0 (some-inj q)),
        (λ s. ap some ((through_int-eq a small_enough).1 s)),
      )
