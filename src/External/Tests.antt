-- ===== src/External/Tests.antt =====
-- Two threads with their tasks, step by step, and instances of the theorems.
use lace.Prelude.{ℕ, ◌<◌, ◌≡◌, ◌≢◌, refl, true, false, none, some, List, [], ◌∷◌, arith}
use lace.External.{
  shared, exclusive, draining, queued, no_tasks, Move, call, thread, worker_takes, worker_finishes,
  step,
}
use lace.External.Invariant.{shares, is_lone, is_owner}
use lace.External.Run.{run_external}
use lace.External.Safety.{exclusive_runs_alone, no_lost_wakeup, no_lost_drain}
use lace.External.Lost.{replaced_task_waits_forever}

-- Thread 0 offers a shared task, thread 1 an exclusive one that has to wait for it.
abbrev shared_first : List Move
shared_first = call shared 0 ∷ thread true 0 ∷ thread true 0 ∷ call exclusive 1 ∷ thread true 1 ∷ []

-- The worker runs the first, then thread 1 goes on.
abbrev then_exclusive : List Move
then_exclusive =
    call shared 0
    ∷ thread true 0
    ∷ thread true 0
    ∷ call exclusive 1
    ∷ thread true 1
    ∷ worker_takes
    ∷ worker_finishes 0
    ∷ thread true 0
    ∷ thread false 1
    ∷ thread true 1
    ∷ []

after_shared : (run_external shared_first no_tasks).pc 1 ≡ draining false
unfolding run_external step
after_shared = refl

after_exclusive :
    ((run_external then_exclusive no_tasks).pc 1 ≡ queued exclusive)
    × ((run_external then_exclusive no_tasks).external_task ≡ some 1)
unfolding run_external step
after_exclusive = (refl, refl)

exclusive_runs_alone_example :
    (shares ((run_external then_exclusive no_tasks).pc 0) ≡ 0)
    × (is_lone ((run_external then_exclusive no_tasks).pc 0) ≡ false)
unfolding step run_external
exclusive_runs_alone_example =
    exclusive_runs_alone 2 then_exclusive (ground arith) 1 0 (omega arith) (omega arith)
      (λ e. ground arith) refl

-- Thread 1 comes while the exclusive task of thread 0 runs.
abbrev exclusive_first : List Move
exclusive_first =
    call exclusive 0
    ∷ thread true 0
    ∷ thread true 0
    ∷ worker_takes
    ∷ call shared 1
    ∷ thread true 1
    ∷ []

no_lost_wakeup_example :
    (j : ℕ) × (j < 2) × (j ≢ 1) × (is_owner ((run_external exclusive_first no_tasks).pc j) ≡ true)
unfolding step run_external
no_lost_wakeup_example = no_lost_wakeup 2 exclusive_first (ground arith) 1 shared (omega arith) refl

no_lost_drain_example :
    (j : ℕ) × (j < 2) × (j ≢ 1) × (shares ((run_external shared_first no_tasks).pc j) ≡ 1)
unfolding step run_external
no_lost_drain_example = no_lost_drain 2 shared_first (ground arith) 1 (omega arith) refl

-- Both threads come with shared tasks, and no worker is in time.
abbrev two_shared : List Move
two_shared = call shared 0 ∷ call shared 1 ∷ thread true 0 ∷ thread true 1 ∷ thread true 0 ∷ []

replaced_task_waits_forever_example :
    (run_external
        (thread true 1 ∷ thread true 1 ∷ worker_takes ∷ worker_takes ∷ [])
        (run_external two_shared no_tasks)).pc
      0
    ≡ queued shared
unfolding step run_external
replaced_task_waits_forever_example =
    replaced_task_waits_forever shared none 1 0 (run_external two_shared no_tasks)
      (worker_takes ∷ worker_takes ∷ []) (λ e. ground arith) refl refl refl
