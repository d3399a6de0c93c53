-- ===== src/Pipes/Tests.antt =====
-- The theorems on the programs with pipes, at runs to the end.
use cs507_unix_programming.Prelude.{ℕ, zero, suc, ◌≤◌, List, [], ◌∷◌, none, some, refl, ◌⊎◌}
use cs507_unix_programming.Pipes.{Op, State, step}
use cs507_unix_programming.Pipes.Exploring.{Run, here, after, Stuck}
use cs507_unix_programming.Pipes.Greeting.{
  hello_parent, hello_child, hello_to_parent, hello_to_child, greeting, one_pipe, two_pipes,
  two_parent, two_child, one_parent, one_child,
}
use cs507_unix_programming.Pipes.Greeting.Outcomes.{Ended, own_message, greeted, greeted_or_own}

unfoldable along : (code : ℕ → List Op) → (order : List ℕ) → State → State
unfolding step
along code [] s = s
along code (k ∷ order) s = along code order (elim (step code k s) [ none ↦ s | some t ↦ t ])

abbrev in_turn : List ℕ
in_turn = 0 ∷ 1 ∷ 0 ∷ 0 ∷ 1 ∷ 1 ∷ 0 ∷ 0 ∷ []

abbrev child_first : List ℕ
child_first = 0 ∷ 1 ∷ 1 ∷ 1 ∷ 0 ∷ 0 ∷ 0 ∷ 0 ∷ []

abbrev two_final : State
unfolding along
two_final = along (greeting two_parent two_child) in_turn (two_pipes two_parent)

Run-two : Run (greeting two_parent two_child) 8 (two_pipes two_parent) two_final
unfolding step along
Run-two = after 7 0 refl (
    after 6 1 refl (
      after 5 0 refl (
        after 4 0 refl
          (after 3 1 refl (after 2 1 refl (after 1 0 refl (after 0 0 refl (here _))))))))

greeted_example :
    (8 ≤ 8)
    × (Stuck (greeting two_parent two_child) two_final
        → Ended (some hello_parent) (some hello_child) two_final)
greeted_example = greeted 8 Run-two

abbrev own_final : State
unfolding along
own_final = along (greeting one_parent one_child) child_first (one_pipe one_parent)

Run-own : Run (greeting one_parent one_child) 8 (one_pipe one_parent) own_final
unfolding step along
Run-own = after 7 0 refl (
    after 6 1 refl (
      after 5 1 refl (
        after 4 1 refl
          (after 3 0 refl (after 2 0 refl (after 1 0 refl (after 0 0 refl (here _))))))))

Stuck-own : Stuck (greeting one_parent one_child) own_final
unfolding step along
Stuck-own zero = refl
Stuck-own (suc zero) = refl
Stuck-own (suc (suc k)) = refl

greeted_or_own_example :
    Ended (some hello_to_parent) (some hello_to_child) own_final
    ⊎ Ended (some (0 ∷ [])) (some own_message) own_final
greeted_or_own_example = greeted_or_own 8 Run-own Stuck-own
