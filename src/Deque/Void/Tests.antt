-- ===== src/Deque/Void/Tests.antt =====
-- A task without a result that is stolen, and one that its owner takes back.
use lace.Prelude.{ℕ, ◌≡◌, refl, true, some, List, [], ◌∷◌, ◌++◌, arith}
use lace.Deque.State.{spawn, sync_next}
use lace.Deque.Owner.{owner_at}
use lace.Deque.Steal.{steal}
use lace.Deque.Value.{Action, owner, thief}
use lace.Deque.Void.{init_void, run_void}
use lace.Deque.Void.Called.{synced_was_called}

program : Unit {0}
unfolding run_void owner_at steal
program = tt

-- A thief asks for work, and wins the first of two tasks after the third spawn.
abbrev spawns : List (Action ℕ)
spawns =
    owner spawn 5
    ∷ owner spawn 5
    ∷ thief true 0
    ∷ thief true 0
    ∷ thief true 0
    ∷ thief true 0
    ∷ owner spawn 6
    ∷ owner spawn 6
    ∷ owner spawn 6
    ∷ owner spawn 6
    ∷ thief true 0
    ∷ thief true 0
    ∷ thief true 0
    ∷ []

-- The owner takes back the second task, and waits for the thief.
abbrev stolen : List (Action ℕ)
stolen =
    spawns
    ++ thief true 0
      ∷ thief true 0
      ∷ thief true 0
      ∷ owner sync_next 0
      ∷ owner sync_next 0
      ∷ owner sync_next 0
      ∷ owner sync_next 0
      ∷ owner sync_next 0
      ∷ owner sync_next 0
      ∷ owner sync_next 0
      ∷ owner sync_next 0
      ∷ owner sync_next 0
      ∷ []

both_synced :
    ((run_void stolen (init_void 4)).synced 0 ≡ true)
    × ((run_void stolen (init_void 4)).synced 1 ≡ true)
    × ((run_void stolen (init_void 4)).called 1 ≡ some 6)
unfolding program
both_synced = (refl, refl, refl)

synced_was_called_example :
    ((run_void stolen (init_void 4)).sys.runs 0 ≡ 1)
    × ((a : ℕ) × ((run_void stolen (init_void 4)).called 0 ≡ some a)
        × ((run_void stolen (init_void 4)).given 0 ≡ some a))
unfolding program
synced_was_called_example = synced_was_called stolen 4 (omega arith) 0 refl
