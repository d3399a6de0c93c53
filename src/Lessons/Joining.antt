-- ===== src/Lessons/Joining.antt =====
-- ex5.c: two strings with a blank between them, made in two ways in one block of memory. A string
-- is a list of bytes without its NUL.
use native.Mathlib.Nat.{suc-add}
use cs507_unix_programming.Prelude.{
  ℕ, zero, suc, ◌+◌, [], ◌∷◌, ◌++◌, append_assoc, Option, none, some, Bytes, length, take, drop,
  replicate, length-append, length-replicate, take-append, drop-append, drop-drop, append-nil, true,
  leb, if◌then◌else◌, ◌≡◌, refl, ap, sym, ◌∙◌, arith,
}

-- A copy of bytes to a place of a block; none if it goes behind the block.
abbrev pub copy : (block : Bytes) → (at : ℕ) → Bytes → Option Bytes
copy block at bytes =
    if leb (at + length bytes) (length block)
    then some (take at block ++ (bytes ++ drop (at + length bytes) block))
    else none

-- strcpy(3) to a place of a block; the string goes with its NUL.
abbrev pub strcpy : (block : Bytes) → (at : ℕ) → (s : Bytes) → Option Bytes
strcpy block at s = copy block at (s ++ 0 ∷ [])

abbrev pub zeros : ℕ → Bytes
zeros n = replicate n 0

-- calloc(strlen(s1) + strlen(s2) + 2, 1)
abbrev pub calloc : (s1 s2 : Bytes) → Bytes
calloc s1 s2 = zeros (length s1 + length s2 + 2)

abbrev pub and_then : Option Bytes → (Bytes → Option Bytes) → Option Bytes
and_then none next = none
and_then (some block) next = next block

-- sprintf(s3, "%s %s", s1, s2)
unfoldable pub method1 : (s1 s2 : Bytes) → (s3 : Bytes) → Option Bytes
method1 s1 s2 s3 = strcpy s3 0 (s1 ++ (32 ∷ s2))

-- strcpy, a blank over the NUL, and strcpy behind it.
unfoldable pub method2 : (s1 s2 : Bytes) → (s3 : Bytes) → Option Bytes
method2 s1 s2 s3 = and_then (strcpy s3 0 s1) (λ block.
    and_then (copy block (length s1) (32 ∷ [])) (λ block. strcpy block (length s1 + 1) s2))

-- What both make of the block.
abbrev pub joined : (s1 s2 : Bytes) → Bytes
joined s1 s2 = s1 ++ (32 ∷ (s2 ++ 0 ∷ []))

zeros-split : (m n : ℕ) → zeros (m + n) ≡ zeros m ++ zeros n
zeros-split zero n = let e : 0 + n ≡ n = omega arith in ap zeros e
zeros-split (suc m) n = rw suc-add (ap (◌∷◌ 0) (zeros-split m n))

-- A copy behind `pre` over as many bytes.
copy_over :
    (pre old new rest : Bytes)
    → length old ≡ length new
    → copy (pre ++ (old ++ rest)) (length pre) new ≡ some (pre ++ (new ++ rest))
copy_over pre old new rest h =
    let fits : leb (length pre + length new) (length (pre ++ (old ++ rest))) ≡ true =
      ground (arith, h, length-append pre (old ++ rest), length-append old rest) in
    let behind : drop (length pre + length new) (pre ++ (old ++ rest)) ≡ rest = rw⁻¹ h (
      sym (drop-drop (length pre) (length old) (pre ++ (old ++ rest)))
      ∙ ap (drop (length old)) (drop-append pre (old ++ rest))
      ∙ drop-append old rest) in
    rw (fits, take-append pre (old ++ rest), behind) refl

length-zeros : (n : ℕ) → length (zeros n) ≡ n
length-zeros n = length-replicate n 0

whole : (s1 s2 : Bytes) → length (calloc s1 s2) ≡ length s1 + length s2 + 2
whole s1 s2 = length-zeros (length s1 + length s2 + 2)

method1-joined : (s1 s2 : Bytes) → method1 s1 s2 (calloc s1 s2) ≡ some (joined s1 s2)
unfolding method1
method1-joined s1 s2 =
    let block = calloc s1 s2 in
    let text = (s1 ++ (32 ∷ s2)) ++ 0 ∷ [] in
    let size : length block ≡ length text =
      omega (
        arith,
        whole s1 s2,
        length-append (s1 ++ (32 ∷ s2)) (0 ∷ []),
        length-append s1 (32 ∷ s2),
      ) in
    ap (λ b. copy b 0 text) (sym (append-nil block))
    ∙ copy_over [] block text [] size
    ∙ ap some (append-nil text ∙ append_assoc s1 (32 ∷ s2) (0 ∷ []))

method2-joined : (s1 s2 : Bytes) → method2 s1 s2 (calloc s1 s2) ≡ some (joined s1 s2)
unfolding method2
method2-joined s1 s2 =
    let left = zeros (length s1 + 1) in
    let right = zeros (length s2 + 1) in
    let sum : length s1 + length s2 + 2 ≡ (length s1 + 1) + (length s2 + 1) = omega arith in
    let split : calloc s1 s2 ≡ left ++ right =
      ap zeros sum ∙ zeros-split (length s1 + 1) (length s2 + 1) in
    let first : strcpy (calloc s1 s2) 0 s1 ≡ some (s1 ++ (0 ∷ right)) =
      ap (λ b. strcpy b 0 s1) split
      ∙ copy_over [] left (s1 ++ 0 ∷ []) right
          (omega (arith, length-zeros (length s1 + 1), length-append s1 (0 ∷ [])))
      ∙ ap some (append_assoc s1 (0 ∷ []) right) in
    let second : copy (s1 ++ (0 ∷ right)) (length s1) (32 ∷ []) ≡ some (s1 ++ (32 ∷ right)) =
      copy_over s1 (0 ∷ []) (32 ∷ []) right refl in
    ap
      (λ o. and_then o (λ block.
        and_then (copy block (length s1) (32 ∷ [])) (λ block. strcpy block (length s1 + 1) s2)))
      first
    ∙ ap (λ o. and_then o (λ block. strcpy block (length s1 + 1) s2)) second
    ∙ third right (length-zeros (length s2 + 1))
  where
    third :
        (right : Bytes)
        → length right ≡ length s2 + 1
        → strcpy (s1 ++ (32 ∷ right)) (length s1 + 1) s2 ≡ some (joined s1 s2)
    third right h =
        let pre = s1 ++ 32 ∷ [] in
        let place : length s1 + 1 ≡ length pre = omega (arith, length-append s1 (32 ∷ [])) in
        let block : s1 ++ (32 ∷ right) ≡ pre ++ (right ++ []) =
          sym (ap (λ r. pre ++ r) (append-nil right) ∙ append_assoc s1 (32 ∷ []) right) in
        ap (λ b. strcpy b (length s1 + 1) s2) block
        ∙ ap (λ n. strcpy (pre ++ (right ++ [])) n s2) place
        ∙ copy_over pre right (s2 ++ 0 ∷ []) [] (omega (arith, h, length-append s2 (0 ∷ [])))
        ∙ ap some (
            ap (λ r. pre ++ r) (append-nil (s2 ++ 0 ∷ []))
            ∙ append_assoc s1 (32 ∷ []) (s2 ++ 0 ∷ []))

-- For all strings, both methods of ex5.c stay within the block that was allocated and leave the
-- same in it: the first string, a blank, the second string and a NUL.
pub methods_agree :
    (s1 s2 : Bytes)
    → (method1 s1 s2 (calloc s1 s2) ≡ some (joined s1 s2))
      × (method2 s1 s2 (calloc s1 s2) ≡ some (joined s1 s2))
methods_agree s1 s2 = (method1-joined s1 s2, method2-joined s1 s2)
