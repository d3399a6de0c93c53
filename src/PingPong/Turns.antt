-- ===== src/PingPong/Turns.antt =====
-- The order of turns: what the lines should be, and the invariant that keeps them so.
use cs507_unix_programming.Prelude.{
  ℕ, zero, suc, ◌+◌, ◌/◌, ◌%◌, ◌≤◌, ◌<◌, List, [], ◌∷◌, ◌++◌, if◌then◌else◌, ◌==◌, ◌≡◌, refl, ap,
  ◌∙◌, arith, append-nil, length, length-append, sym,
}
use native.Mathlib.Numerals.{add-one}
use cs507_unix_programming.PingPong.{
  Player, ping, pong, Pc, top, work, disable, release, ended, Line, round, leaves, State,
}

-- The rounds among the lines.
abbrev pub rounds : List Line → List (Player × ℕ)
rounds [] = []
rounds (round p n ∷ l) = (p, n) ∷ rounds l
rounds (leaves p ∷ l) = rounds l

-- The first n turns: ping#0, pong#0, ping#1, pong#1, and so on.
abbrev pub turns : ℕ → List (Player × ℕ)
turns zero = []
turns (suc n) = turns n ++ (if n % 2 == 0 then ping else pong, n / 2) ∷ []

pub length-turns : (n : ℕ) → length (turns n) ≡ n
length-turns zero = refl
length-turns (suc n) = omega (arith, length-append (turns n) (_ ∷ []), length-turns n)

pub turns-length : {l : List (Player × ℕ)} (n : ℕ) → l ≡ turns n → l ≡ turns (length l)
turns-length n e = e ∙ ap turns (sym (length-turns n) ∙ ap length (sym e))

rounds-append : (l m : List Line) → rounds (l ++ m) ≡ rounds l ++ rounds m
rounds-append [] m = refl
rounds-append (round p n ∷ l) m = ap (◌∷◌ (p, n)) (rounds-append l m)
rounds-append (leaves p ∷ l) m = rounds-append l m

-- The thread has the turn: it is past its wait, and has not enabled the other one.
abbrev pub holds : Pc → ℕ
holds work = 1
holds disable = 1
holds release = 1
holds pc = 0

-- It has shown the line of its round.
abbrev pub shown : Pc → ℕ
shown disable = 1
shown release = 1
shown pc = 0

abbrev pub turns_shown : State → ℕ
turns_shown s =
    s.ping_thread.loop + s.pong_thread.loop + shown s.ping_thread.pc + shown s.pong_thread.pc

abbrev pub InRound : ℕ → Pc → ℕ → Type 0
InRound loops top loop = loop ≤ loops
InRound loops ended loop = loop ≡ loops
InRound loops pc loop = loop < loops

pub record Inv (loops : ℕ) (s : State) : Type 0 where
  pub one : s.ping_sem + s.pong_sem + holds s.ping_thread.pc + holds s.pong_thread.pc ≡ 1
  pub turn : s.ping_thread.loop ≡ s.pong_thread.loop + s.pong_sem + holds s.pong_thread.pc
  pub ping_in : InRound loops s.ping_thread.pc s.ping_thread.loop
  pub pong_in : InRound loops s.pong_thread.pc s.pong_thread.loop
  pub lines : rounds s.out ≡ turns (turns_shown s)

pub rounds-ping :
    (l : List Line) (a n : ℕ)
    → rounds l ≡ turns n
    → n ≡ a + a
    → rounds (l ++ round ping a ∷ []) ≡ turns (n + 1)
rounds-ping l a n h e =
    let even : n % 2 ≡ 0 = omega arith in
    let half : n / 2 ≡ a = omega arith in
    rw (rounds-append l (round ping a ∷ []), h, add-one n, even, half)

pub rounds-pong :
    (l : List Line) (a n : ℕ)
    → rounds l ≡ turns n
    → n ≡ a + 1 + a
    → rounds (l ++ round pong a ∷ []) ≡ turns (n + 1)
rounds-pong l a n h e =
    let odd : n % 2 ≡ 1 = omega arith in
    let half : n / 2 ≡ a = omega arith in
    rw (rounds-append l (round pong a ∷ []), h, add-one n, odd, half)

pub rounds-leaves : (l : List Line) (p : Player) → rounds (l ++ leaves p ∷ []) ≡ rounds l
rounds-leaves l p = rounds-append l (leaves p ∷ []) ∙ append-nil (rounds l)
