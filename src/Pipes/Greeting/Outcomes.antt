-- ===== src/Pipes/Greeting/Outcomes.antt =====
-- What the parent and the child have read in the end, over all orders of their calls.
use cs507_unix_programming.Prelude.{
  ℕ, ◌≤◌, List, [], ◌∷◌, Bool, true, false, ◌&&◌, ◌||◌, Option, none, some, Bytes, take, get_or,
  str_eq, ◌≡◌, refl, ap, ◌⊎◌, inl, inr, arith,
}
use cs507_unix_programming.Pipes.{State, ended, over, step}
use cs507_unix_programming.Pipes.Exploring.{Run, Stuck, always, always-Run}
use cs507_unix_programming.Pipes.Greeting.{
  hello_parent, hello_child, hello_to_parent, hello_to_child, greeting, one_pipe, two_pipes,
  two_parent, two_child, one_parent, one_child, wrong_parent, wrong_child,
}

-- What a process has read in its one read(2).
abbrev pub reply_of : (k : ℕ) → State → List (Option Bytes)
reply_of k s = (get_or s.processes k ended).got

abbrev is_reply : List (Option Bytes) → Option Bytes → Bool
is_reply (some b ∷ []) (some c) = str_eq b c
is_reply (none ∷ []) none = true
is_reply rs r = false

-- Both processes have ended, with these replies.
abbrev end_with : (parent child : Option Bytes) → State → Bool
end_with a b s =
    (over (get_or s.processes 0 ended) && over (get_or s.processes 1 ended))
    && (is_reply (reply_of 0 s) a && is_reply (reply_of 1 s) b)

-- Both processes have ended, and each has read once, with these replies; none is -1.
abbrev pub Ended : (parent child : Option Bytes) → State → Type 0
Ended a b s =
    (over (get_or s.processes 0 ended) ≡ true)
    × (over (get_or s.processes 1 ended) ≡ true)
    × (reply_of 0 s ≡ a ∷ [])
    × (reply_of 1 s ≡ b ∷ [])

str_eq-eq : (s t : Bytes) → str_eq s t ≡ true → s ≡ t
str_eq-eq [] [] h = refl
str_eq-eq [] (c ∷ t) h = cc
str_eq-eq (c ∷ s) [] h = cc
str_eq-eq (c ∷ s) (d ∷ t) h = ground (arith, h, str_eq-eq s t)

is_reply-eq : (rs : List (Option Bytes)) (r : Option Bytes) → is_reply rs r ≡ true → rs ≡ r ∷ []
is_reply-eq [] none h = cc
is_reply-eq [] (some c) h = cc
is_reply-eq (none ∷ []) none h = refl
is_reply-eq (none ∷ []) (some c) h = cc
is_reply-eq (some b ∷ []) none h = cc
is_reply-eq (some b ∷ []) (some c) h = ap (λ d. some d ∷ []) (str_eq-eq b c h)
is_reply-eq (none ∷ r ∷ rs) none h = cc
is_reply-eq (none ∷ r ∷ rs) (some c) h = cc
is_reply-eq (some b ∷ r ∷ rs) none h = cc
is_reply-eq (some b ∷ r ∷ rs) (some c) h = cc

both : (a b : Bool) → (a && b) ≡ true → (a ≡ true) × (b ≡ true)
both true b h = (refl, h)
both false b h = cc

end_with-Ended : (a b : Option Bytes) (s : State) → end_with a b s ≡ true → Ended a b s
end_with-Ended a b s h =
    let parts = both _ _ h in
    let overs = both _ _ parts.0 in
    let replies = both _ _ parts.1 in
    (
      overs.0,
      overs.1,
      is_reply-eq (reply_of 0 s) a replies.0,
      is_reply-eq (reply_of 1 s) b replies.1,
    )

either : (a b : Bool) → (a || b) ≡ true → (a ≡ true) ⊎ (b ≡ true)
either true b h = inl refl
either false b h = inr h

two_always :
    always
      (greeting two_parent two_child)
      (end_with (some hello_parent) (some hello_child))
      8
      (two_pipes two_parent)
    ≡ true
unfolding always step
two_always = refl

-- Every run of the parent and the child of lab7/pipes.c, in any order of their calls, has at
-- most 8 calls, and where neither can go on both have ended, the parent has read the message
-- for it and the child the message for it, whole.
pub greeted :
    (n : ℕ) {t : State}
    → Run (greeting two_parent two_child) n (two_pipes two_parent) t
    → (n ≤ 8)
      × (Stuck (greeting two_parent two_child) t → Ended (some hello_parent) (some hello_child) t)
greeted n {t} r =
    let result =
      always-Run (greeting two_parent two_child) (end_with (some hello_parent) (some hello_child)) 8
        n (two_pipes two_parent) two_always r in
    (result.0, λ h. end_with-Ended (some hello_parent) (some hello_child) t (result.1 h))

-- Where the child reads its own message first, all but the NUL.
abbrev pub own_message : Bytes
own_message = take 15 hello_to_parent

one_test : State → Bool
one_test s =
    end_with (some hello_to_parent) (some hello_to_child) s
    || end_with (some (0 ∷ [])) (some own_message) s

one_always : always (greeting one_parent one_child) one_test 8 (one_pipe one_parent) ≡ true
unfolding always step one_test
one_always = refl

-- Every run of the parent and the child of hw5/pipes.c that cannot go on, in any order of their
-- calls, has ended in one of two ways: each has read the message for it, or the child has read
-- its own message without the NUL and the parent the NUL alone.
pub greeted_or_own :
    (n : ℕ) {t : State}
    → Run (greeting one_parent one_child) n (one_pipe one_parent) t
    → Stuck (greeting one_parent one_child) t
    → Ended (some hello_to_parent) (some hello_to_child) t
      ⊎ Ended (some (0 ∷ [])) (some own_message) t
unfolding one_test
greeted_or_own n {t} r h =
    let result =
      always-Run (greeting one_parent one_child) one_test 8 n (one_pipe one_parent) one_always r in
    elim (either _ _ (result.1 h)) [
      | inl e ↦ inl (end_with-Ended (some hello_to_parent) (some hello_to_child) t e)
      | inr e ↦ inr (end_with-Ended (some (0 ∷ [])) (some own_message) t e)
    ]

wrong_always :
    always
      (greeting wrong_parent wrong_child)
      (end_with (some hello_parent) none)
      8
      (one_pipe wrong_parent)
    ≡ true
unfolding always step
wrong_always = refl

-- Every run of Lab06/pipes.c that cannot go on has ended with the message in the parent and a read
-- of the child that failed, since each uses the wrong end of the pipe.
pub child_reads_nothing :
    (n : ℕ) {t : State}
    → Run (greeting wrong_parent wrong_child) n (one_pipe wrong_parent) t
    → Stuck (greeting wrong_parent wrong_child) t
    → Ended (some hello_parent) none t
child_reads_nothing n {t} r h =
    let result =
      always-Run (greeting wrong_parent wrong_child) (end_with (some hello_parent) none) 8 n
        (one_pipe wrong_parent) wrong_always r in
    end_with-Ended (some hello_parent) none t (result.1 h)
