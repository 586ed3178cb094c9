-- ===== src/Victim/Tests.antt =====
-- Rounds of an idle worker, and the theorems about its victims at an input.
use lace.Prelude.{◌≡◌, refl, true, false, some, List, [], ◌∷◌, arith}
use lace.Victim.{rng, Action, Signals, steal_loop, start_loop}
use lace.Victim.Fair.{IsFair, steal_loop-IsFair}

abbrev quiet : Signals
quiet = record { newframe = false; external = false; must_suspend = false }

abbrev busy : Signals
busy = record { newframe = true; external = true; must_suspend = true }

-- Worker 1 of 4: a jump to worker 0, then a walk.
three_rounds :
    steal_loop (quiet ∷ quiet ∷ busy ∷ []) 4 1 (start_loop 1)
    ≡ some (
        Action.steal_from 0
        ∷ Action.steal_from 2
        ∷ Action.steal_from 3
        ∷ Action.yield_newframe
        ∷ Action.steal_external
        ∷ Action.suspend
        ∷ [])
unfolding steal_loop rng
three_rounds = refl

steal_loop-IsFair_example :
    (a : List Action) × (steal_loop (quiet ∷ busy ∷ []) 4 1 (start_loop 1) ≡ some a) × IsFair 4 1 a
steal_loop-IsFair_example = steal_loop-IsFair (quiet ∷ busy ∷ []) 4 1 (omega arith) (omega arith)
