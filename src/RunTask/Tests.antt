-- ===== src/RunTask/Tests.antt =====
-- One thread runs an external task with two workers that were asleep.
use lace.Prelude.{ℕ, ◌+◌, ◌<◌, ◌≡◌, ◌≢◌, refl, true, false, some, List, [], ◌∷◌, ◌++◌, arith}
use lace.External.{shared, taken, idle}
use lace.Suspend.{out, asleep, running, leaving}
use lace.Suspend.Invariant.{rejoiners, runners}
use lace.RunTask.{
  elsewhere, no_service, ServiceMove, calls, thread, loops, takes, ends, serve, run_service,
}
use lace.RunTask.Safety.{task_keeps_workers}

-- `lace_resume` posts twice, the task is offered, worker 0 wakes up and takes it.
abbrev taking : List ServiceMove
taking =
    calls shared 0
    ∷ thread true 0
    ∷ thread true 0
    ∷ thread true 0
    ∷ thread true 0
    ∷ thread true 0
    ∷ thread true 0
    ∷ thread true 0
    ∷ thread true 0
    ∷ loops true 0
    ∷ loops true 0
    ∷ takes 0
    ∷ []

taken_by_worker :
    ((run_service 2 taking no_service).ext.pc 0 ≡ taken shared)
    × ((run_service 2 taking no_service).on 0 ≡ some 0)
    × ((run_service 2 taking no_service).susp.worker 1 ≡ asleep)
unfolding serve
taken_by_worker = (refl, refl, refl)

-- The other worker wakes up too, the task ends, and `lace_suspend` lets both sleep.
abbrev to_the_end : List ServiceMove
to_the_end =
    taking
    ++ ends 0
      ∷ thread true 0
      ∷ thread true 0
      ∷ thread true 0
      ∷ thread true 0
      ∷ loops true 1
      ∷ loops true 1
      ∷ thread true 0
      ∷ thread true 0
      ∷ loops true 0
      ∷ loops true 1
      ∷ loops true 0
      ∷ loops true 1
      ∷ thread true 0
      ∷ thread true 0
      ∷ thread true 0
      ∷ thread true 0
      ∷ []

all_at_rest :
    ((run_service 2 to_the_end no_service).ext.pc 0 ≡ idle)
    × ((run_service 2 to_the_end no_service).phase 0 ≡ elsewhere)
    × ((run_service 2 to_the_end no_service).susp.caller 0 ≡ out)
    × ((run_service 2 to_the_end no_service).susp.worker 0 ≡ asleep)
    × ((run_service 2 to_the_end no_service).susp.worker 1 ≡ asleep)
unfolding serve
all_at_rest = (refl, refl, refl, refl, refl)

task_keeps_workers_example :
    ((run_service 2 taking no_service).susp.must_suspend ≡ false)
    × ((i : ℕ) → i < 2 → (run_service 2 taking no_service).susp.worker i ≢ leaving)
    × ((run_service 2 taking no_service).susp.semaphore
          + rejoiners (run_service 2 taking no_service).susp.worker 2
          + runners (run_service 2 taking no_service).susp.worker 2
        ≡ 2)
    × ((i : ℕ)
        → (run_service 2 taking no_service).on 0 ≡ some i
        → (i < 2) × ((run_service 2 taking no_service).susp.worker i ≡ running))
unfolding serve
task_keeps_workers_example =
    task_keeps_workers 2 1 taking (ground arith) 0 (omega arith) (λ e. ground arith)
