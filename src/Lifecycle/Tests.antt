-- ===== src/Lifecycle/Tests.antt =====
-- Starting and stopping at a concrete run, and an instance of the theorem.
use lace.Prelude.{ℕ, zero, suc, ◌≡◌, refl, false, arith, List, [], ◌∷◌, ◌++◌}
use lace.Lifecycle.{gone, stopped, waiting, lace_start, Move, worker, caller, step}
use lace.Lifecycle.Safety.{AllInRange, run_threads, freed_after_all_gone}

program : Unit {0}
unfolding step
program = tt

abbrev times : ℕ → Move → List Move
times zero m = []
times (suc n) m = m ∷ times n m

-- Two workers start, and one of them has not joined when lace_stop is called.
abbrev started : List Move
started = times 7 caller ++ (times 4 (worker 0) ++ times 2 (worker 1) ++ times 2 caller)

abbrev stopping : List Move
stopping =
    started
    ++ (times 2 (worker 1)
        ++ (times 2 caller ++ (times 3 (worker 0) ++ times 3 (worker 1)) ++ times 6 caller))

waits_for_the_last :
    ((run_threads 2 started lace_start).caller ≡ waiting)
    × ((run_threads 2 started lace_start).workers_running ≡ 1)
unfolding program
waits_for_the_last = (refl, refl)

all_stopped :
    ((run_threads 2 stopping lace_start).caller ≡ stopped)
    × ((run_threads 2 stopping lace_start).memory 1 ≡ false)
unfolding program
all_stopped = (refl, refl)

stopping-AllInRange : AllInRange 2 stopping
stopping-AllInRange = ground arith

freed_after_all_gone_example : (run_threads 2 stopping lace_start).worker 1 ≡ gone
unfolding program
freed_after_all_gone_example =
    freed_after_all_gone 2 stopping (omega arith) stopping-AllInRange 1 (omega arith) refl
