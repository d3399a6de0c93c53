-- ===== src/Signals/Recording.antt =====
-- No signal is lost while at most `signo_size` come between two lines of input.
use cs507_unix_programming.Prelude.{
  ℕ, zero, suc, ◌+◌, ◌-◌, ◌≤◌, ◌<◌, List, [], ◌∷◌, ◌++◌, none, some, length, set, ◌≡◌, ◌≢◌, refl,
  ap, ◌∙◌, arith, lt→ltb, map, str_eq, if◌then◌else◌,
}
use cs507_unix_programming.Signals.Log.{Log, sighandler, recorded, signo_size}
use cs507_unix_programming.Signals.Interceptor.{
  Event, signal, word, no_word, Run, undefined, intercept, quit,
}
use native.Mathlib.Decide.{dec_lt}

length-set : (l : List ℕ) (i v : ℕ) → length (set l i v) ≡ length l
length-set [] i v = refl
length-set (x ∷ l) zero v = refl
length-set (x ∷ l) (suc i) v = ap suc (length-set l i v)

-- Signals that the program handles, up to a `quit`.
abbrev pub handled : List Event → List ℕ
handled [] = []
handled (signal n ∷ es) = n ∷ handled es
handled (word w ∷ es) = if str_eq w quit then [] else handled es
handled (no_word ∷ es) = handled es

-- Between two returns of scanf there are at most `room` signals, `left` before the next.
abbrev pub Fits : (left : ℕ) → List Event → Type 0
Fits left [] = Unit
Fits left (signal n ∷ es) = (0 < left) × Fits (left - 1) es
Fits left (word w ∷ es) = Fits signo_size es
Fits left (no_word ∷ es) = Fits signo_size es

-- Nothing is lost: what is shown and what is still recorded are the signals, in order.
pub record IsComplete (before : List ℕ) (es : List Event) (r : Run) : Type 0 where
  pub safe : r.ending ≢ undefined
  pub kept : r.shown ++ recorded r.log ≡ before ++ handled es

abbrev pub IsLog : Log → Type 0
IsLog l = length l.signo ≡ signo_size

sighandler-some :
    (l : Log) (n : ℕ)
    → IsLog l
    → l.count < signo_size
    → sighandler l n ≡ some (record { signo = set l.signo l.count n; count = l.count + 1 })
unfolding sighandler
sighandler-some l n v h = rw (lt→ltb l.count (length l.signo) (omega arith))

sighandler-none : (l : Log) (n : ℕ) → IsLog l → signo_size ≤ l.count → sighandler l n ≡ none
unfolding sighandler
sighandler-none l n v h = ground arith

-- One signal, with room for it and without.
intercept-signal :
    (l l' : Log) (n : ℕ) (es : List Event)
    → sighandler l n ≡ some l'
    → intercept l (signal n ∷ es) ≡ intercept l' es
unfolding intercept
intercept-signal l l' n es e = ground arith

intercept-full :
    (l : Log) (n : ℕ) (es : List Event)
    → sighandler l n ≡ none
    → (intercept l (signal n ∷ es)).ending ≡ undefined
unfolding intercept
intercept-full l n es e = ground arith

abbrev logged : Log → ℕ → Log
logged l n = record { signo = set l.signo l.count n; count = l.count + 1 }

-- One signal more, with no line of input in between, is written behind `signo`.
abbrev pub signals : List ℕ → List Event
signals = map signal

-- From an array of 32 places that is filled to a count of at most 32, signals in a row that
-- exceed the room, with no return of scanf in between, are written behind the array.
pub intercept-undefined :
    (ns : List ℕ) (l : Log) (es : List Event)
    → IsLog l
    → signo_size < l.count + length ns
    → l.count ≤ signo_size
    → (intercept l (signals ns ++ es)).ending ≡ undefined
intercept-undefined [] l es v h c = absurd (omega arith)
intercept-undefined (n ∷ ns) l es v h c = elim (dec_lt l.count signo_size) [
  | yes room ↦
      ap (λ r. r.ending)
        (intercept-signal l (logged l n) n (signals ns ++ es) (sighandler-some l n v room))
      ∙ intercept-undefined ns (logged l n) es (length-set l.signo l.count n ∙ v) (omega arith)
          (omega arith)
  | no full ↦ intercept-full l n (signals ns ++ es) (sighandler-none l n v (omega arith))
]
