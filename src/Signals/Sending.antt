-- ===== src/Signals/Sending.antt =====
-- What sigsender.c and hw7c2.c send, and when the processes of hw7.c end.
use cs507_unix_programming.Prelude.{
  ℕ, zero, suc, ◌+◌, ◌-◌, ◌≤◌, ◌<◌, List, [], ◌∷◌, Bool, true, false, Option, none, some, Bytes,
  ◌≡◌, refl, ap, ◌∙◌, sym, arith, map, ◌↔◌, length,
}
use mathlib.Core.Option
use cs507_unix_programming.Signals.Log.{install, handlers, empty_log, sighandler}
use cs507_unix_programming.Signals.Sender.{
  Kill, kill, send_signals, kill_range, kills, two, sigsender,
}
use cs507_unix_programming.Signals.Family.{
  hw7, Host, Fork, Action, globals, signal, deliver, pause_loop, terminates, sigusr2,
}

-- sigsender sends, in order, exactly the signals that the others install a handler for.
send_signals-install :
    (accepts : ℕ → Bool) (pid isig n : ℕ)
    → ((k : ℕ) → accepts k ≡ true)
    → Option.map (map (kill pid)) (install accepts isig n) ≡ some (send_signals pid isig n)
unfolding install send_signals
send_signals-install accepts pid isig zero all = refl
send_signals-install accepts pid isig (suc n) all =
    ground (arith, all isig, send_signals-install accepts pid (isig + 1) n all)

-- Given a process number, and if no sigaction fails, sigsender sends exactly the signals, in
-- order, for which the interceptors install a handler.
pub sigsender-handlers :
    (scan : Bytes → ℕ) (accepts : ℕ → Bool) (name pid : Bytes) (more : List Bytes)
    → ((k : ℕ) → accepts k ≡ true)
    → sigsender scan (name ∷ pid ∷ more) ≡ Option.map (map (kill (scan pid))) (handlers accepts)
unfolding sigsender
sigsender-handlers scan accepts name pid more all =
    sym (send_signals-install accepts (scan pid) 1 31 all)

-- A range may be given either way round, and one number is a range.
pub kills_swap : (pid a b : ℕ) → kills pid (two a b) ≡ kills pid (two b a)
unfolding kills
kills_swap pid a b = ground arith

abbrev pub nth : List Kill → ℕ → Option Kill
nth [] i = none
nth (k ∷ l) zero = some k
nth (k ∷ l) (suc i) = nth l i

nth-kill_range :
    (pid isig n i : ℕ) → i < n → nth (kill_range pid isig n) i ≡ some (kill pid (isig + i))
unfolding kill_range
nth-kill_range pid isig zero i h = elim h [ ]
nth-kill_range pid isig (suc n) zero h = ap (λ t. some (kill pid t)) (omega arith)
nth-kill_range pid isig (suc n) (suc i) h =
    nth-kill_range pid (isig + 1) n i (omega arith) ∙ ap (λ t. some (kill pid t)) (omega arith)

length-kill_range : (pid isig n : ℕ) → length (kill_range pid isig n) ≡ n
unfolding kill_range
length-kill_range pid isig zero = refl
length-kill_range pid isig (suc n) = ap suc (length-kill_range pid (isig + 1) n)

-- For two numbers, given in either order, hw7c2 sends every signal from the smaller to the
-- larger, each once and in ascending order: the signal at each index in the range is the
-- smaller number plus the index, and there are no others.
pub kills_range :
    (pid a b i : ℕ)
    → a ≤ b
    → i ≤ b - a
    → (nth (kills pid (two b a)) i ≡ some (kill pid (a + i)))
      × (nth (kills pid (two a b)) i ≡ some (kill pid (a + i)))
      × (length (kills pid (two a b)) ≡ suc b - a)
unfolding kills
kills_range pid a b i h k =
    ground (arith, nth-kill_range pid a (suc b - a) i, length-kill_range pid a (suc b - a))

abbrev pub has_kill : List Action → Bool
has_kill [] = false
has_kill (Action.kill p n ∷ l) = true
has_kill (_ ∷ l) = has_kill l

abbrev EndsChild : Host → Type 0
EndsChild h =
    (c1 : ℕ) × (c2 : ℕ) × (h.fork1 ≡ Fork.parent c1)
    × (h.fork2 ≡ Fork.parent c2)
    × (hw7 h
        ≡ Action.wait_for c2
          ∷ Action.kill c1 sigusr2
          ∷ Action.wait_for c1
          ∷ Action.return_zero
          ∷ [])

hw7-kill_forks :
    (h : Host) (f1 f2 : Fork) → h.fork1 ≡ f1 → h.fork2 ≡ f2 → has_kill (hw7 h) ≡ true → EndsChild h
unfolding hw7
hw7-kill_forks h (Fork.parent c1) (Fork.parent c2) e1 e2 k = (c1, c2, e1, e2, ground arith)
hw7-kill_forks h (Fork.parent c1) Fork.child e1 e2 k = absurd (ground arith)
hw7-kill_forks h (Fork.parent c1) Fork.failed e1 e2 k = absurd (ground arith)
hw7-kill_forks h Fork.child f2 e1 e2 k = absurd (ground arith)
hw7-kill_forks h Fork.failed f2 e1 e2 k = absurd (ground arith)

-- If a process of hw7 sends a signal at all, both forks gave it a child, and it waits for
-- hw7c2, then sends SIGUSR2 to hw7c1, then waits for hw7c1, then returns, and does nothing
-- else.
pub hw7-kill :
    (h : Host)
    → has_kill (hw7 h) ≡ true
    → (c1 : ℕ) × (c2 : ℕ) × (h.fork1 ≡ Fork.parent c1)
      × (h.fork2 ≡ Fork.parent c2)
      × (hw7 h
          ≡ Action.wait_for c2
            ∷ Action.kill c1 sigusr2
            ∷ Action.wait_for c1
            ∷ Action.return_zero
            ∷ [])
hw7-kill h e = hw7-kill_forks h h.fork1 h.fork2 refl refl e

-- A batch of one signal ends hw7c1 exactly if it is SIGUSR2 from its parent.
pub hw7c1_one :
    (ppid n from : ℕ)
    → ((pause_loop ppid (globals empty_log 0) ((signal n from ∷ []) ∷ [])).ending ≡ terminates)
      ↔ ((n ≡ sigusr2) × (from ≡ ppid))
unfolding pause_loop deliver sighandler
hw7c1_one ppid n from = ground arith

-- From the start, a batch of two signals during one pause ends hw7c1 exactly if the first
-- signal is SIGUSR2 and the sender of the second is the parent.
pub hw7c1_two :
    (ppid n k from other : ℕ)
    → ((pause_loop ppid (globals empty_log 0) ((signal n from ∷ signal k other ∷ []) ∷ [])).ending
        ≡ terminates)
      ↔ ((n ≡ sigusr2) × (other ≡ ppid))
unfolding pause_loop deliver sighandler
hw7c1_two ppid n k from other = ground arith
