-- ===== src/Naming/Tests.antt =====
-- The theorems on thrdmutex.c at a run in which the two threads take the same number, and at one in
-- which procA makes all names.
use cs507_unix_programming.Prelude.{
  ◌≤◌, List, [], ◌∷◌, ◌++◌, Bool, true, false, ◌&&◌, ◌||◌, none, some, length, All, along-keeps,
  ◌≡◌, refl,
}
use cs507_unix_programming.Naming.{maxcnt, State, Pc, unlocks, ended, step, Reach, here, later}
use cs507_unix_programming.Naming.Listing.{allocating, inside, Named, Complete}
use cs507_unix_programming.Naming.Finished.{list-Complete, names_enough}

abbrev turn : Bool → List Bool
turn who = who ∷ who ∷ who ∷ who ∷ who ∷ who ∷ who ∷ who ∷ []

-- procA and procB load 0 before either stores.
abbrev repeated : State
repeated = record {
  shared = record { ctr = 1; list = some (false, 0) ∷ some (true, 0) ∷ []; mutex = some false };
  a = Pc.tests;
  b = unlocks;
}

Reach-repeated : Reach repeated
unfolding step
Reach-repeated =
    along-keeps (λ who. step who true) Reach (λ who s t r e. later who true r e)
      (true ∷ true ∷ true ∷ false ∷ false ∷ false ∷ true ∷ true ∷ true ∷ true ∷ true ∷ false ∷ false
        ∷ false ∷ false ∷ [])
      here refl

list-Complete_example :
    ((inside repeated.a && inside repeated.b) ≡ false)
    × Complete (allocating repeated.a || allocating repeated.b) repeated.shared.list
list-Complete_example = list-Complete Reach-repeated

abbrev finished : State
finished = record {
  shared = record {
    ctr = 10;
    list =
        some (true, 9)
        ∷ some (true, 8)
        ∷ some (true, 7)
        ∷ some (true, 6)
        ∷ some (true, 5)
        ∷ some (true, 4)
        ∷ some (true, 3)
        ∷ some (true, 2)
        ∷ some (true, 1)
        ∷ some (true, 0)
        ∷ [];
    mutex = none;
  };
  a = ended;
  b = ended;
}

Reach-finished : Reach finished
unfolding step
Reach-finished =
    along-keeps (λ who. step who true) Reach (λ who s t r e. later who true r e)
      (turn true
        ++ (turn true
            ++ (turn true
                ++ (turn true
                    ++ (turn true
                        ++ (turn true
                            ++ (turn true
                                ++ (turn true
                                    ++ (turn true ++ (turn true ++ (true ∷ false ∷ [])))))))))))
      here refl

names_enough_example : All Named finished.shared.list × (maxcnt ≤ length finished.shared.list)
names_enough_example = names_enough Reach-finished refl refl
