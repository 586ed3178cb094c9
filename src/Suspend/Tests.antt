-- ===== src/Suspend/Tests.antt =====
-- Two workers and two callers, step by step, and instances of the theorems.
use lace.Prelude.{ℕ, ◌+◌, ◌≡◌, ◌≢◌, refl, true, false, List, [], ◌∷◌, ◌++◌, arith}
use lace.Suspend.{users, asleep, leaving, just_started, Move, worker, caller, step}
use lace.Suspend.Invariant.{rejoiners, runners}
use lace.Suspend.Safety.{run_suspension, awake_while_used, all_asleep_at_zero}

-- Caller 0 resumes two workers, and worker 0 is back.
abbrev resumed : List Move
resumed =
    caller true 0
    ∷ caller true 0
    ∷ caller true 0
    ∷ caller true 0
    ∷ caller true 0
    ∷ caller true 0
    ∷ worker true 0
    ∷ worker true 0
    ∷ []

-- It suspends them again, before worker 1 has come.
abbrev gathers : List Move
gathers = resumed ++ caller true 0 ∷ caller true 0 ∷ caller true 0 ∷ []

-- Worker 1 comes, the flag is set, worker 0 sees it.
abbrev stops : List Move
stops =
    gathers ++ worker true 1 ∷ worker true 1 ∷ caller true 0 ∷ caller true 0 ∷ worker true 0 ∷ []

-- All sleep again.
abbrev ends : List Move
ends =
    stops
    ++ worker true 0
      ∷ worker true 1
      ∷ worker true 1
      ∷ caller true 0
      ∷ caller true 0
      ∷ caller true 0
      ∷ []

resumed_once :
    ((run_suspension 2 resumed just_started).awaken_count ≡ users 1)
    × ((run_suspension 2 resumed just_started).semaphore ≡ 1)
    × ((run_suspension 2 resumed just_started).workers_running ≡ 1)
unfolding step
resumed_once = (refl, refl, refl)

ends_asleep :
    ((run_suspension 2 ends just_started).awaken_count ≡ users 0)
    × ((run_suspension 2 ends just_started).workers_running ≡ 0)
unfolding step
ends_asleep = (refl, refl)

awake_while_used_example :
    ((run_suspension 2 resumed just_started).must_suspend ≡ false)
    × ((run_suspension 2 resumed just_started).worker 1 ≢ leaving)
    × ((run_suspension 2 resumed just_started).semaphore
          + rejoiners (run_suspension 2 resumed just_started).worker 2
          + runners (run_suspension 2 resumed just_started).worker 2
        ≡ 2)
unfolding step
awake_while_used_example =
    awake_while_used 2 1 resumed (ground arith) 0 1 (omega arith) (omega arith) refl

abbrev the_caller : ℕ
the_caller = 0

all_asleep_at_zero_example :
    ((run_suspension 2 ends just_started).semaphore ≡ 0)
    × ((run_suspension 2 ends just_started).must_suspend ≡ false)
    × ((run_suspension 2 ends just_started).worker 1 ≡ asleep)
unfolding step
all_asleep_at_zero_example = all_asleep_at_zero 2 1 ends (ground arith) 1 (omega arith) refl
