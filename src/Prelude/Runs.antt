-- ===== src/Prelude/Runs.antt =====
-- Runs of two threads in a given order, for tests.
use mathlib.Core.Path.{◌≡◌, refl, subst}
use mathlib.Core.Bool.{Bool}
use mathlib.Core.Option.{Option, none, some}
use mathlib.Core.List.{List, [], ◌∷◌}

module _ {S : Type 0} (step : Bool → S → Option S) where
  abbrev pub along : (order : List Bool) → S → Option S
  along [] s = some s
  along (who ∷ order) s = elim (step who s) [ none ↦ none | some t ↦ along order t ]

  some-inj : {s t : S} → some s ≡ some t → s ≡ t
  some-inj e = cc

  -- What every step keeps holds behind the run.
  pub along-keeps :
      (P : S → Type 0)
      → ((who : Bool) (s t : S) → P s → step who s ≡ some t → P t)
      → (order : List Bool) {s t : S} → P s
      → along order s ≡ some t
      → P t
  along-keeps P keeps [] h e = subst P (some-inj e) h
  along-keeps P keeps (who ∷ order) {s} {t} h e =
      split (step who s) refl e
        (λ (u : S) (k : P u) (f : along order u ≡ some t). along-keeps P keeps order k f)
    where
      split :
          (o : Option S)
          → step who s ≡ o
          → (elim o [ none ↦ none | some u ↦ along order u ]) ≡ some t
          → ((u : S) → P u → along order u ≡ some t → P t)
          → P t
      split none f e rest = cc
      split (some u) f e rest = rest u (keeps who s u h f) e
