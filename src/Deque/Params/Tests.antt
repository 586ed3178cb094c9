-- ===== src/Deque/Params/Tests.antt =====
-- Tasks with two and with six parameters.
use lace.Prelude.{ℕ, ◌+◌, ◌*◌, ◌≡◌, refl, some, List, [], ◌∷◌, arith}
use lace.Deque.Owner.{owner_at}
use lace.Deque.Value.{wrap}
use lace.Deque.Params.{Params, Args, Fields, apply, load, store, declare, declare_void}
use lace.Deque.Params.Arities.{task_6}
use lace.Deque.Params.Returns.{
  Use, spawns, syncs, take, ask_for, no_calls, run_uses, sync_any_params,
}
use lace.Deque.Params.Calls.{take_void, void_ask_for, no_void_calls, run_void_uses, void_any_params}

program : Unit {0}
unfolding take take_void ask_for void_ask_for owner_at wrap load store apply declare declare_void
program = tt

abbrev two : Params
two = ℕ ∷ ℕ ∷ []

abbrev sum : ℕ → ℕ → ℕ
sum a b = a + 10 * b

abbrev polynomial : ℕ → ℕ → ℕ → ℕ → ℕ → ℕ → ℕ
polynomial a b c d e f = a + 2 * b + 3 * c + 4 * d + 5 * e + 6 * f

-- `SPAWN(sum, 3, 4); SYNC(sum)`
abbrev spawn_and_sync : List (Use two)
spawn_and_sync = spawns (3, (4, tt)) ∷ spawns (3, (4, tt)) ∷ syncs ∷ syncs ∷ syncs ∷ []

sync_any_params_example :
    (a : Args two) × ((run_uses two sum spawn_and_sync (no_calls 4)).asked 0 ≡ some a)
    × (some 43 ≡ some (apply two sum a))
unfolding program
sync_any_params_example = sync_any_params two sum spawn_and_sync 4 0 (some 43) (omega arith) refl

six_parameters :
    (task_6 polynomial).name_run (wrap (load (ℕ ∷ ℕ ∷ ℕ ∷ ℕ ∷ ℕ ∷ ℕ ∷ []) polynomial)) 1 2 3 4 5 6
    ≡ some (some 91)
unfolding task_6 wrap load
six_parameters = refl

void_any_params_example :
    ((run_void_uses two spawn_and_sync (no_void_calls 4)).machine.sys.runs 0 ≡ 1)
    × ((a : Args two) × ((d : Fields two) × ((run_void_uses two spawn_and_sync
                (no_void_calls 4)).asked
              0
            ≡ some a)
          × ((run_void_uses two spawn_and_sync (no_void_calls 4)).machine.called 0 ≡ some d)
          × ((declare_void two).name_call sum d ≡ some (apply two sum a))))
unfolding program
void_any_params_example = void_any_params two sum spawn_and_sync 4 0 (omega arith) refl
