-- ===== src/Deque/Frame/Tests.antt =====
-- Frames at concrete runs, and instances of the theorems.
use lace.Prelude.{ℕ, zero, suc, ◌≤◌, ◌<◌, ◌≡◌, refl, true, false, List, [], ◌∷◌, ◌++◌, arith}
use lace.Deque.State.{spawn, sync_next, System, taking}
use lace.Deque.Owner.{own}
use lace.Deque.Steal.{steal}
use lace.Deque.Interleaving.{init_worker, Move, run}
use lace.Deque.Frame.{FrameMove, enter, run_frame, frame_step}
use lace.Deque.Frame.Restore.{Restored, old_frame_safe, frame_restores, frame_forgets_stolen}

program : Unit {0}
unfolding run own steal run_frame
program = tt

abbrev times {ℓ} : {A : Type ℓ} → ℕ → A → List A
times zero m = []
times (suc n) m = m ∷ times n m

-- Three tasks; two thieves see nothing and are about to ask.
abbrev asked : List Move
asked = times 6 (Move.owner spawn) ++ (times 3 (Move.thief true 0) ++ times 3 (Move.thief true 1))

-- They ask one after the other: four of five tasks are shared. The owner takes back the fifth.
abbrev shared : List Move
shared =
    asked
    ++ (Move.thief true 0 ∷ times 4 (Move.owner spawn)
        ++ (Move.thief true 1 ∷ times 4 (Move.owner spawn) ++ times 3 (Move.owner sync_next)))

-- All four are stolen while the owner moves the split point down for the fourth; its thief is done.
abbrev all_stolen : List Move
all_stolen =
    shared
    ++ (times 3 (Move.owner sync_next)
        ++ (times 3 (Move.thief true 0)
            ++ (times 3 (Move.thief true 1)
                ++ (times 3 (Move.thief true 2)
                    ++ (times 6 (Move.thief true 3) ++ times 5 (Move.owner sync_next))))))

all_stolen_state :
    ((run all_stolen (init_worker 8)).wt.ts ≡ record { tail = 4; split = 2 })
    × ((run all_stolen (init_worker 8)).w.split ≡ 4)
    × ((run all_stolen (init_worker 8)).head ≡ 3)
unfolding program
all_stolen_state = (refl, refl, refl)

-- A frame whose root task does nothing.
abbrev empty_root : List FrameMove
empty_root = times 5 (FrameMove.owner false spawn)

-- Its last access.
abbrev after : List Move → System
after before =
    (frame_step (run_frame empty_root (enter (run before (init_worker 8))))
      (FrameMove.owner false spawn)).sys

frame_forgets_stolen_example :
    ((own sync_next (own sync_next (after all_stolen))).at ≡ taking)
    × ((own sync_next (own sync_next (after all_stolen))).head
        < (own sync_next (own sync_next (after all_stolen))).wt.ts.tail)
unfolding program
frame_forgets_stolen_example =
    frame_forgets_stolen all_stolen 8 (omega arith) refl empty_root false spawn refl refl
      (omega arith) (omega arith) refl

frame_restores_example :
    Restored
      (run shared (init_worker 8))
      (run_frame empty_root (enter (run shared (init_worker 8))))
      (frame_step
        (run_frame empty_root (enter (run shared (init_worker 8))))
        (FrameMove.owner false spawn))
unfolding program
frame_restores_example = frame_restores shared 8 (omega arith) refl empty_root false spawn refl

-- The root task shares one task of its own, and a thief is about to win it.
abbrev shares_one : List FrameMove
shares_one =
    times 4 (FrameMove.owner false spawn)
    ++ (times 4 (FrameMove.owner true spawn) ++ times 2 (FrameMove.thief true 2))

old_frame_safe_example : (run_frame shares_one (enter (run shared (init_worker 8)))).bottom ≤ 4
unfolding program
old_frame_safe_example =
    old_frame_safe shared 8 (omega arith) refl shares_one true 2 4 (record { tail = 4; split = 5 })
      refl refl refl
