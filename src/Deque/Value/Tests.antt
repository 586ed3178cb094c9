-- ===== src/Deque/Value/Tests.antt =====
-- A task that squares a number, taken back by its owner and stolen.
use lace.Prelude.{ℕ, ◌*◌, ◌≡◌, refl, true, some, List, [], ◌∷◌, ◌++◌, arith}
use lace.Deque.State.{spawn, sync_next, taking, clearing}
use lace.Deque.Owner.{owner_at}
use lace.Deque.Steal.{steal}
use lace.Deque.Value.{init_machine, Action, owner, thief, act, run_machine}
use lace.Deque.Value.Right.{sync_value, sync_returns}

program : Unit {0}
unfolding run_machine owner_at steal
program = tt

abbrev square : ℕ → ℕ
square n = n * n

-- Spawned with 7, and popped.
abbrev popped : List (Action ℕ)
popped = owner spawn 7 ∷ owner spawn 7 ∷ owner sync_next 0 ∷ owner sync_next 0 ∷ []

abbrev synced : List (Action ℕ)
synced = popped ++ owner sync_next 0 ∷ []

-- Two tasks; a thief asks for work, and wins the first one after the third spawn.
abbrev spawns : List (Action ℕ)
spawns =
    owner spawn 5
    ∷ owner spawn 5
    ∷ thief true 0
    ∷ thief true 0
    ∷ thief true 0
    ∷ thief true 0
    ∷ owner spawn 6
    ∷ owner spawn 6
    ∷ owner spawn 6
    ∷ owner spawn 6
    ∷ thief true 0
    ∷ thief true 0
    ∷ thief true 0
    ∷ []

-- The thief is done; the owner takes back the second task and then syncs the first.
abbrev stolen : List (Action ℕ)
stolen =
    spawns
    ++ thief true 0
      ∷ thief true 0
      ∷ thief true 0
      ∷ owner sync_next 0
      ∷ owner sync_next 0
      ∷ owner sync_next 0
      ∷ owner sync_next 0
      ∷ owner sync_next 0
      ∷ owner sync_next 0
      ∷ owner sync_next 0
      ∷ owner sync_next 0
      ∷ []

popped_at : (run_machine square popped (init_machine 4)).sys.at ≡ taking
unfolding program
popped_at = refl

stolen_at : (run_machine square stolen (init_machine 4)).sys.at ≡ clearing
unfolding program
stolen_at = refl

-- It is taken back: the value is 49.
sync_value_example :
    (a : ℕ) × ((run_machine square synced (init_machine 4)).given 0 ≡ some a) × (49 ≡ square a)
unfolding program
sync_value_example = sync_value square synced 4 (omega arith) 0 49 refl

-- The first task was stolen: its result is 25.
sync_returns_example :
    (a : ℕ) × ((run_machine square stolen (init_machine 4)).given 0 ≡ some a)
    × ((act square (run_machine square stolen (init_machine 4)) (owner sync_next 0)).returned 0
        ≡ some (square a))
unfolding program
sync_returns_example = sync_returns square stolen 4 (omega arith) sync_next 0 refl
