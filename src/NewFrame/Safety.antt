-- ===== src/NewFrame/Safety.antt =====
-- What NEWFRAME and TOGETHER guarantee, in any interleaving of the workers.
use lace.Prelude.{ℕ, ◌^◌, ◌<◌, ◌≡◌, true, Option, none, some, List, [], ◌∷◌, foldl}
use lace.NewFrame.{
  Task, Pc, copied, copy_waits, claimed, claim_waits, resetting, entering, enter_waits, Session,
  just_started, Turn, step,
}
use lace.NewFrame.Invariant.{Phase, gather, reset, between}

-- The turns are of `n` workers, and no weak compare-exchange fails without a reason.
abbrev pub AllLucky : (n : ℕ) → List Turn → Type 0
AllLucky n [] = Unit
AllLucky n (m ∷ l) = (m.who < n) × (m.luck ≡ true) × AllLucky n l

abbrev pub run_session : (n : ℕ) → List Turn → Session → Session
run_session n l s = foldl (step n) s l

-- Whether the worker holds a copy of the task, or has it as its own, and is not yet in its frame.
abbrev pub task_of : Pc → Option Task
task_of (copied t _) = some t
task_of (copy_waits t _) = some t
task_of (claimed t) = some t
task_of (claim_waits t) = some t
task_of (resetting t) = some t
task_of (entering t _) = some t
task_of (enter_waits t _) = some t
task_of _ = none

phase_task : Phase → Option Task
phase_task (gather t) = some t
phase_task (reset t) = some t
phase_task (between t) = some t
phase_task _ = none

abbrev get_or : Task → Option Task → Task
get_or t none = t
get_or _ (some u) = u

module _ (n : ℕ) (l : List Turn) (small : n < 2 ^ 32) (ok : AllLucky n l) where
  abbrev final : Session
  final = run_session n l just_started
