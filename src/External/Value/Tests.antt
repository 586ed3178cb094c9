-- ===== src/External/Value/Tests.antt =====
-- A thread's `RUN` and another one's `RUNEX`.
use lace.Prelude.{arith, ℕ, ◌+◌, ◌*◌, ◌≡◌, refl, true, none, some, List, [], ◌∷◌}
use lace.External.{shared, exclusive}
use lace.External.Value.{no_callers, RunMove, run, runs_on, takes, finishes, run_act, run_all}
use lace.External.Value.Right.{run_value}

abbrev work : ℕ → ℕ
work a = 10 * a + 1

-- Thread 1 waits with its exclusive task until the task of thread 0 is done.
abbrev run_and_runex : List (RunMove ℕ)
run_and_runex =
    run shared 5 0
    ∷ runs_on true 0
    ∷ runs_on true 0
    ∷ run exclusive 6 1
    ∷ runs_on true 1
    ∷ takes
    ∷ finishes 0
    ∷ runs_on true 0
    ∷ runs_on true 1
    ∷ runs_on true 1
    ∷ takes
    ∷ finishes 1
    ∷ []

first_returned :
    ((run_all work run_and_runex no_callers).returned 0 ≡ some 51)
    × ((run_all work run_and_runex no_callers).returned 1 ≡ none)
    × ((run_all work run_and_runex no_callers).runs 1 ≡ 1)
unfolding run_act
first_returned = (refl, refl, refl)

run_value_example :
    ((run_all work run_and_runex no_callers).runs 0 ≡ 1)
    × ((run_all work run_and_runex no_callers).returned 0 ≡ some (work 5))
unfolding run_act
run_value_example = run_value work 2 run_and_runex 0 5 (ground arith) refl refl
