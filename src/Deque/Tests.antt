-- ===== src/Deque/Tests.antt =====
-- Runs of the deque at concrete schedules, and each theorem about it at an input.
use lace.Prelude.{
  ℕ, zero, suc, ◌≤◌, ◌<◌, ◌≡◌, ◌≢◌, ◌⊎◌, refl, inl, inr, List, [], ◌∷◌, ◌++◌, true, false, some,
  arith,
}
use lace.Deque.State.{completed, spinning, landed, spawn, sync_next, land}
use lace.Deque.Owner.{own}
use lace.Deque.Steal.{steal}
use lace.Deque.Interleaving.{init_worker, Move, owner, thief, run}
use lace.Deque.Slots.{claim}
use lace.Deque.Invariant.{bound}
use lace.Deque.Safety.{
  run_at_most_once, no_task_lost, owner_takes_its_own, leapfrog_waits_for_the_thief,
  stolen_task_has_a_thief, IsAttended,
}
use lace.Deque.Progress.{rank, owner_wait_free}

program : Unit {0}
unfolding run own steal
program = tt

abbrev times : ℕ → Move → List Move
times zero m = []
times (suc n) m = m ∷ times n m

-- Two spawns; the thief finds nothing, asks for work, and wins the first task.
abbrev stolen : List Move
stolen =
    times 2 (owner spawn)
    ++ (times 4 (thief true 0) ++ (times 4 (owner spawn) ++ times 3 (thief true 0)))

stolen_state :
    ((run stolen (init_worker 4)).head ≡ 2)
    × ((run stolen (init_worker 4)).wt.ts ≡ record { tail = 1; split = 1 })
    × (claim ((run stolen (init_worker 4)).pc 0) ≡ some 0)
unfolding program
stolen_state = (refl, refl, refl)

-- The owner takes the second task back.
abbrev taken : List Move
taken = stolen ++ times 2 (owner sync_next)

-- It executes that and waits for the first, before the thief has stored itself.
abbrev waiting : List Move
waiting = taken ++ times 6 (owner sync_next)

waiting_at : (run waiting (init_worker 4)).at ≡ spinning
unfolding program
waiting_at = refl

-- The thief stores itself, and the owner waits for it to be done.
abbrev nested : List Move
nested = waiting ++ (times 1 (thief true 0) ++ times 1 (owner land))

nested_pins : (run nested (init_worker 4)).pins ≡ 0 ∷ []
unfolding program
nested_pins = refl

-- The thief stores itself; the owner spawns and syncs another task meanwhile; the thief finishes.
abbrev landing : List Move
landing =
    waiting
    ++ (times 1 (thief true 0)
        ++ (times 1 (owner land)
            ++ (times 4 (owner spawn)
                ++ (times 7 (owner sync_next)
                    ++ (times 2 (thief true 0) ++ times 1 (owner land))))))

landing_state :
    ((run landing (init_worker 4)).at ≡ landed)
    × ((run landing (init_worker 4)).w.allstolen ≡ false)
    × ((run landing (init_worker 4)).runs 0 ≡ 1)
    × ((run landing (init_worker 4)).runs 2 ≡ 1)
unfolding program
landing_state = (refl, refl, refl, refl)

abbrev cleared : List Move
cleared = landing ++ times 1 (owner land)

run_at_most_once_example : (run landing (init_worker 4)).runs 0 ≤ 1
run_at_most_once_example = run_at_most_once landing 4 (omega arith) 0

no_task_lost_example :
    (((run taken (init_worker 4)).runs 1 ≡ 1)
      ⊎ ((i : ℕ) × (i < bound (run taken (init_worker 4)).at (run taken (init_worker 4)).head)
          × ((run taken (init_worker 4)).f i ≡ 1))
      ⊎ ((run taken (init_worker 4)).dropped 1 ≡ true))
    × ((run taken (init_worker 4)).dropped 1 ≡ true → (run taken (init_worker 4)).runs 1 ≡ 0)
unfolding program
no_task_lost_example = no_task_lost taken 4 (omega arith) 1 (omega arith)

owner_takes_its_own_example :
    ((run taken (init_worker 4)).runs
        ((run taken (init_worker 4)).f (run taken (init_worker 4)).head)
      ≡ 0)
    × ((k : ℕ) → claim ((run taken (init_worker 4)).pc k) ≢ some (run taken (init_worker 4)).head)
    × ((run taken (init_worker 4)).wt.ts.tail ≤ (run taken (init_worker 4)).wt.ts.split)
    × ((run taken (init_worker 4)).wt.ts.split ≤ (run taken (init_worker 4)).head)
unfolding program
owner_takes_its_own_example = owner_takes_its_own taken 4 (omega arith) refl

leapfrog_waits_for_the_thief_example :
    ((run cleared (init_worker 4)).runs
        ((run cleared (init_worker 4)).f (run cleared (init_worker 4)).head)
      ≡ 1)
    × ((run cleared (init_worker 4)).thief (run cleared (init_worker 4)).head ≡ completed)
    × ((k : ℕ)
        → claim ((run cleared (init_worker 4)).pc k) ≢ some (run cleared (init_worker 4)).head)
unfolding program
leapfrog_waits_for_the_thief_example = leapfrog_waits_for_the_thief cleared 4 (omega arith) refl

stolen_task_has_a_thief_example : IsAttended nested 4 (omega arith) 0
unfolding program
stolen_task_has_a_thief_example = stolen_task_has_a_thief nested 4 (omega arith) 0 (inr (inl refl))

owner_wait_free_example :
    (done : List Move) × (left : List Move) × (done ++ left ≡ times 9 (owner sync_next))
    × (rank (run done (run (stolen ++ times 1 (owner sync_next)) (init_worker 4))).at ≡ 0)
unfolding program
owner_wait_free_example =
    owner_wait_free (times 9 (owner sync_next))
      (run (stolen ++ times 1 (owner sync_next)) (init_worker 4)) (omega arith)
