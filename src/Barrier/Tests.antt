-- ===== src/Barrier/Tests.antt =====
-- A barrier of three workers, and its theorems at a schedule.
use lace.Prelude.{ℕ, ◌+◌, ◌≤◌, ◌<◌, ◌≡◌, refl, List, [], ◌∷◌, arith}
use lace.Barrier.{waiting, barrier_init, barrier_step, all_left}
use lace.Barrier.Safety.{
  run_barrier, nobody_leaves_early, barrier_no_deadlock, destroy_waits_for_all,
}
use lace.Barrier.Refinement.{Meeting, opens, places, barrier_step-Meeting}

-- Workers 0 and 1 arrive and wait, 2 opens the barrier and leaves, 0 leaves.
abbrev half_open : List ℕ
half_open = 0 ∷ 1 ∷ 0 ∷ 1 ∷ 0 ∷ 2 ∷ 2 ∷ 2 ∷ 2 ∷ 2 ∷ 2 ∷ 0 ∷ 0 ∷ []

abbrev opened : List ℕ
opened = 0 ∷ 1 ∷ 0 ∷ 1 ∷ 0 ∷ 2 ∷ 2 ∷ 2 ∷ 2 ∷ 2 ∷ 2 ∷ 0 ∷ 0 ∷ 1 ∷ 1 ∷ []

half_open_state :
    ((run_barrier 3 half_open barrier_init).unleft ≡ 1)
    × ((run_barrier 3 half_open barrier_init).wait ≡ 1)
    × ((run_barrier 3 half_open barrier_init).pc 1 ≡ waiting 0)
unfolding barrier_step
half_open_state = (refl, refl, refl)

nobody_leaves_early_example :
    ((run_barrier 3 half_open barrier_init).departures 2
      ≤ (run_barrier 3 half_open barrier_init).arrivals 1)
    × ((run_barrier 3 half_open barrier_init).arrivals 2
        ≤ (run_barrier 3 half_open barrier_init).departures 1 + 2)
nobody_leaves_early_example =
    nobody_leaves_early 3 (omega arith) half_open (omega arith) 2 1 (omega arith) (omega arith)

barrier_no_deadlock_example : ¬ (
    (i : ℕ)
    → i < 3
    → (run_barrier 3 half_open barrier_init).pc i
      ≡ waiting (run_barrier 3 half_open barrier_init).wait)
barrier_no_deadlock_example =
    barrier_no_deadlock 3 (omega arith) half_open (omega arith) (omega arith)

destroy_waits_for_all_example :
    (run_barrier 3 opened barrier_init).departures 1 ≡ (run_barrier 3 opened barrier_init).flips
unfolding barrier_step all_left
destroy_waits_for_all_example =
    destroy_waits_for_all 3 (omega arith) opened (omega arith) (omega arith) refl 1 (omega arith)

-- Before worker 2 opens the barrier.
abbrev all_present : List ℕ
all_present = 0 ∷ 1 ∷ 0 ∷ 1 ∷ 0 ∷ 2 ∷ 2 ∷ 2 ∷ 2 ∷ []

opened_at_once :
    Meeting 3
      (places (run_barrier 3 all_present barrier_init))
      (places (barrier_step 3 (run_barrier 3 all_present barrier_init) 2))
unfolding barrier_step
opened_at_once = opens (λ j p. ground arith)

barrier_step-Meeting_example :
    Meeting 3
      (places (run_barrier 3 all_present barrier_init))
      (places (barrier_step 3 (run_barrier 3 all_present barrier_init) 2))
barrier_step-Meeting_example =
    barrier_step-Meeting 3 (omega arith) all_present (omega arith) 2 (omega arith)
