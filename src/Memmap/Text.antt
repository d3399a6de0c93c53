-- ===== src/Memmap/Text.antt =====
-- What `SendArgs` leaves in the mapped memory, and the room that it needs.
use cs507_unix_programming.Prelude.{
  ℕ, ◌+◌, ◌≤◌, ◌<◌, List, [], ◌∷◌, ◌++◌, Bytes, length, drop, ◌≡◌, refl, ap, ◌∙◌, sym, arith,
  take-append, drop-append, drop-drop, length-append, length-drop, NoNul, All, c_string,
  c_string-append, c_string-through, append_assoc,
}
use cs507_unix_programming.Memmap.{strcpy_at, past, copy_args}

-- The arguments, with a blank behind each.
abbrev pub joined : List Bytes → Bytes
joined [] = []
joined (s ∷ ss) = s ++ b' ' ∷ joined ss

-- The memory from the place of the next argument on.
left_by : List Bytes → Bytes → Bytes
left_by [] post = post
left_by (s ∷ ss) post = s ++ b' ' ∷ left_by ss (0 ∷ drop (length s + 2) post)

drop-append-add : (pre post : Bytes) (k : ℕ) → drop (length pre + k) (pre ++ post) ≡ drop k post
drop-append-add pre post k =
    sym (drop-drop (length pre) k (pre ++ post)) ∙ ap (drop k) (drop-append pre post)

strcpy_at-append :
    (pre post s : Bytes) (off : ℕ)
    → off ≡ length pre
    → strcpy_at (pre ++ post) off s ≡ pre ++ ((s ++ 0 ∷ []) ++ drop (length s + 1) post)
strcpy_at-append pre post s off e =
    rw e (rw (take-append pre post, drop-append-add pre post (length s + 1)))

past-append :
    (pre s rest : Bytes) (off : ℕ)
    → off ≡ length pre
    → NoNul s
    → past (pre ++ ((s ++ 0 ∷ []) ++ rest)) off ≡ length (pre ++ s)
past-append pre s rest off e h = rw e (
    rw (drop-append pre ((s ++ 0 ∷ []) ++ rest)) (
      rw (append_assoc s (0 ∷ []) rest)
        (rw (c_string-append s rest h) (sym (length-append pre s)))))

-- The memory after an argument, and after the blank behind it.
after_string :
    (pre post s : Bytes) (off : ℕ)
    → off ≡ length pre
    → strcpy_at (pre ++ post) off s ≡ (pre ++ s) ++ 0 ∷ drop (length s + 1) post
after_string pre post s off e = strcpy_at-append pre post s off e ∙ simp append_assoc

after_blank :
    (pre post : Bytes) (off : ℕ)
    → off ≡ length pre
    → strcpy_at (pre ++ 0 ∷ post) off (b' ' ∷ []) ≡ (pre ++ b' ' ∷ []) ++ 0 ∷ drop 1 post
after_blank pre post off e = after_string pre (0 ∷ post) (b' ' ∷ []) off e

past_string :
    (pre post s : Bytes) (off : ℕ)
    → off ≡ length pre
    → NoNul s
    → past (strcpy_at (pre ++ post) off s) off ≡ length (pre ++ s)
past_string pre post s off e h =
    ap (λ t. past t off) (strcpy_at-append pre post s off e)
    ∙ past-append pre s (drop (length s + 1) post) off e h

blank_NoNul : NoNul (b' ' ∷ [])
blank_NoNul = (λ e. absurd (omega (arith, e)), tt)

copy_args-eq :
    (ss : List Bytes) (pre post : Bytes) (off : ℕ)
    → off ≡ length pre
    → All NoNul ss
    → copy_args ss (pre ++ post) off ≡ pre ++ left_by ss post
unfolding copy_args left_by
copy_args-eq [] pre post off e h = refl
copy_args-eq (s ∷ ss) pre post off e h =
    rw (m1, o1)
      (rw (m2, o2)
        (copy_args-eq ss ((pre ++ s) ++ b' ' ∷ []) (0 ∷ drop (length s + 2) post)
            (length ((pre ++ s) ++ b' ' ∷ [])) refl h.1
          ∙ simp append_assoc))
  where
    d : Bytes
    d = drop (length s + 1) post

    m1 : strcpy_at (pre ++ post) off s ≡ (pre ++ s) ++ 0 ∷ d
    m1 = after_string pre post s off e

    o1 : past ((pre ++ s) ++ 0 ∷ d) off ≡ length (pre ++ s)
    o1 = ap (λ t. past t off) (sym m1) ∙ past_string pre post s off e h.0

    m2 :
        strcpy_at ((pre ++ s) ++ 0 ∷ d) (length (pre ++ s)) (b' ' ∷ [])
        ≡ ((pre ++ s) ++ b' ' ∷ []) ++ 0 ∷ drop (length s + 2) post
    m2 =
        after_blank (pre ++ s) d (length (pre ++ s)) refl
        ∙ ap (λ t. ((pre ++ s) ++ b' ' ∷ []) ++ 0 ∷ t)
            (drop-drop (length s + 1) 1 post ∙ ap (λ n. drop n post) (omega arith))

    o2 :
        past (((pre ++ s) ++ b' ' ∷ []) ++ 0 ∷ drop (length s + 2) post) (length (pre ++ s))
        ≡ length ((pre ++ s) ++ b' ' ∷ [])
    o2 =
        ap (λ t. past t (length (pre ++ s))) (sym m2)
        ∙ past_string (pre ++ s) (0 ∷ d) (b' ' ∷ []) (length (pre ++ s)) refl blank_NoNul

c_string-left_by :
    (ss : List Bytes) (rest : Bytes) → All NoNul ss → c_string (left_by ss (0 ∷ rest)) ≡ joined ss
unfolding left_by
c_string-left_by [] rest h = refl
c_string-left_by (s ∷ ss) rest h =
    c_string-through s (b' ' ∷ left_by ss (0 ∷ drop (length s + 2) (0 ∷ rest))) h.0
    ∙ ap (λ t. s ++ b' ' ∷ t) (c_string-left_by ss (drop (length s + 2) (0 ∷ rest)) h.1)

length-left_by :
    (ss : List Bytes) (post : Bytes)
    → length (joined ss) + 1 ≤ length post
    → length (left_by ss post) ≡ length post
unfolding left_by
length-left_by [] post h = refl
length-left_by (s ∷ ss) post h = omega (
  arith,
  length-append s (b' ' ∷ joined ss),
  length-append s (b' ' ∷ left_by ss (0 ∷ drop (length s + 2) post)),
  length-drop (length s + 2) post,
  length-left_by ss (0 ∷ drop (length s + 2) post)
      (omega (arith, length-append s (b' ' ∷ joined ss), length-drop (length s + 2) post)),
)

length-left_by-ge :
    (ss : List Bytes) (rest : Bytes) → length (joined ss) + 1 ≤ length (left_by ss (0 ∷ rest))
unfolding left_by
length-left_by-ge [] rest = omega arith
length-left_by-ge (s ∷ ss) rest = omega (
  arith,
  length-append s (b' ' ∷ joined ss),
  length-append s (b' ' ∷ left_by ss (0 ∷ drop (length s + 2) (0 ∷ rest))),
  length-left_by-ge ss (drop (length s + 2) (0 ∷ rest)),
)

shown_left :
    (s : Bytes) (ss : List Bytes) (mem : Bytes)
    → All NoNul (s ∷ ss)
    → c_string (left_by (s ∷ ss) mem) ≡ joined (s ∷ ss)
unfolding left_by
shown_left s ss mem h =
    c_string-through s (b' ' ∷ left_by ss (0 ∷ drop (length s + 2) mem)) h.0
    ∙ ap (λ t. s ++ b' ' ∷ t) (c_string-left_by ss (drop (length s + 2) mem) h.1)

-- If there is an argument, no argument has a NUL inside, and the arguments with a blank behind
-- each and a final NUL fit into the memory, then SendArgs leaves them there as the C string,
-- and writes nothing behind the memory.
pub copy_args-fits :
    (s : Bytes) (ss : List Bytes) (mem : Bytes)
    → All NoNul (s ∷ ss)
    → length (joined (s ∷ ss)) + 1 ≤ length mem
    → (c_string (copy_args (s ∷ ss) mem 0) ≡ joined (s ∷ ss))
      × (length (copy_args (s ∷ ss) mem 0) ≡ length mem)
copy_args-fits s ss [] h l = absurd (omega arith)
copy_args-fits s ss (c ∷ mem) h l = (
  ap c_string whole ∙ shown_left s ss (c ∷ mem) h,
  ap length whole ∙ length-left_by (s ∷ ss) (c ∷ mem) l,
)
  where
    whole : copy_args (s ∷ ss) (c ∷ mem) 0 ≡ left_by (s ∷ ss) (c ∷ mem)
    whole = copy_args-eq (s ∷ ss) [] (c ∷ mem) 0 refl h

-- If there is an argument, no argument has a NUL inside, and the arguments with a blank behind
-- each and a final NUL are longer than the memory, SendArgs writes behind it.
pub copy_args-overflows :
    (s : Bytes) (ss : List Bytes) (mem : Bytes)
    → All NoNul (s ∷ ss)
    → length mem < length (joined (s ∷ ss)) + 1
    → length mem < length (copy_args (s ∷ ss) mem 0)
unfolding left_by
copy_args-overflows s ss mem h l = omega (
  arith,
  ap length (copy_args-eq (s ∷ ss) [] mem 0 refl h),
  length-append s (b' ' ∷ joined ss),
  length-append s (b' ' ∷ left_by ss (0 ∷ drop (length s + 2) mem)),
  length-left_by-ge ss (drop (length s + 2) mem),
)
