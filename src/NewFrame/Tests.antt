-- ===== src/NewFrame/Tests.antt =====
-- NEWFRAME and TOGETHER at concrete runs, and instances of the theorems.
use lace.Prelude.{ℕ, ◌≡◌, refl, true, false, none, arith, List, [], ◌∷◌, ◌++◌}
use lace.NewFrame.{
  Kind, together, Task, running, starting, crashed, just_started, Turn, step, Action, start, look,
  end_root, leave,
}
use lace.NewFrame.Safety.{AllLucky, run_session}

program : Unit {0}
unfolding step
program = tt

abbrev turn : ℕ → Action → Turn
turn i a = record { who = i; luck = true; action = a }

-- Worker 0 begins a frame, and worker 1, about to begin one too, copies the task.
abbrev gathering : List Turn
gathering =
    turn 0 (start Kind.newframe)
    ∷ turn 1 (start together)
    ∷ turn 0 look
    ∷ turn 1 look
    ∷ turn 1 look
    ∷ []

abbrev task : Task
task = record { leader = 0; level = 0; kind = Kind.newframe }

-- Both are in the frame.
abbrev inside : List Turn
inside = gathering ++ (turn 0 look ∷ turn 1 look ∷ turn 0 look ∷ turn 0 look ∷ turn 1 look ∷ [])

-- The leader's task ended, and worker 0 waits.
abbrev over : List Turn
over = inside ++ (turn 0 end_root ∷ turn 0 look ∷ [])

inside_one_frame :
    ((run_session 2 inside just_started).pc 1 ≡ running)
    × ((run_session 2 inside just_started).level 1 ≡ 1)
    × ((run_session 2 inside just_started).newframe ≡ none)
unfolding program
inside_one_frame = (refl, refl, refl)

-- Back from the frame, worker 1 goes on with its own.
goes_on :
    (run_session 2 (over ++ (turn 1 leave ∷ turn 1 look ∷ [])) just_started).pc 1
    ≡ starting together
unfolding program
goes_on = refl

-- A compare-exchange that fails with nothing there: the worker copies from NULL.
copies_from_null :
    (run_session 1
        (turn 0 (start together)
          ∷ record { who = 0; luck = false; action = look }
          ∷ turn 0 look
          ∷ [])
        just_started).pc
      0
    ≡ crashed
unfolding program
copies_from_null = refl

over-AllLucky : AllLucky 2 over
over-AllLucky = ground arith
