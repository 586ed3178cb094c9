-- ===== src/RunTask.antt =====
-- src/lace.c, `lace_run_task` and `lace_run_task_exclusive` from their beginning to their end: they
-- wake the workers with `lace_resume`, have the task run, and let them sleep with `lace_suspend`.
-- External and Suspend, together.
pub mod Apart
pub mod Invariant
pub mod Moves
pub mod Workers
pub mod Safety
mod Tests
use lace.Prelude.{
  ℕ, ◌+◌, ◌-◌, Bool, true, Option, none, some, List, foldl, ◌==◌, if◌then◌else◌, update,
}
use lace.External.{
  Kind, idle, Pc, queued, Externals, no_tasks, start, thread_at, finish, steal_external,
}
use lace.Suspend.{
  Worker, asleep, rejoining, running, leaving, Caller, out, active, Suspension, just_started,
  worker_at, caller_at,
}

-- Where a thread is in `lace_run_task`.
pub data Phase : Type 0 where
  elsewhere : Phase  -- it may use `lace_resume` and `lace_suspend` itself
  waking : Kind → Phase  -- in `lace_resume`
  in_task : Phase  -- between the two calls
  going : Phase  -- in `lace_suspend`

-- `on` is the worker that executes a thread's task, `load` how many of these a worker executes, one
-- inside of the other; both are not in the program.
pub record Service : Type 0 where
  pub susp : Suspension
  pub ext : Externals
  pub phase : ℕ → Phase
  pub on : ℕ → Option ℕ
  pub load : ℕ → ℕ

abbrev pub no_service : Service
no_service = record {
  susp = just_started;
  ext = no_tasks;
  phase = λ _. elsewhere;
  on = λ _. none;
  load = λ _. 0;
}

-- A thread calls `lace_run_task` or `lace_run_task_exclusive`.
unfoldable pub call_run : (n : ℕ) → Kind → (j : ℕ) → Phase → Caller → Service → Service
unfolding caller_at
call_run n k j elsewhere out s = record s {
  susp = caller_at true n j out s.susp;
  phase = update s.phase j (waking k);
}
call_run n k j _ _ s = s

-- `lace_resume` returns to `lace_run_task`, or goes on.
unfoldable pub wake_at : (luck : Bool) (n : ℕ) → Kind → (j : ℕ) → Caller → Service → Service
unfolding caller_at start
wake_at luck n k j active s = record s {
  ext = start k j (s.ext.pc j) s.ext;
  phase = update s.phase j in_task;
}
wake_at luck n k j c s = record s { susp = caller_at luck n j c s.susp }

-- The task is done and released, and `lace_suspend` is called; or the thread goes on with it.
unfoldable pub task_at : (luck : Bool) (n j : ℕ) → Pc → Service → Service
unfolding caller_at thread_at
task_at luck n j idle s = record s {
  susp = caller_at luck n j (s.susp.caller j) s.susp;
  phase = update s.phase j going;
}
task_at luck n j p s = record s { ext = thread_at luck j p s.ext }

-- `lace_suspend` returns, or goes on.
unfoldable pub go_at : (luck : Bool) (n j : ℕ) → Caller → Service → Service
unfolding caller_at
go_at luck n j out s = record s { phase = update s.phase j elsewhere }
go_at luck n j c s = record s { susp = caller_at luck n j c s.susp }

unfoldable pub phase_at : (luck : Bool) (n j : ℕ) → Phase → Service → Service
unfolding caller_at wake_at task_at go_at
phase_at luck n j elsewhere s = record s { susp = caller_at luck n j (s.susp.caller j) s.susp }
phase_at luck n j (waking k) s = wake_at luck n k j (s.susp.caller j) s
phase_at luck n j in_task s = task_at luck n j (s.ext.pc j) s
phase_at luck n j going s = go_at luck n j (s.susp.caller j) s

-- A worker in its loop: it goes on where it executes no task.
unfoldable pub loop_at : (may_pass : Bool) (i : ℕ) → Service → Service
unfolding worker_at
loop_at may_pass i s =
    if s.load i == 0 then record s { susp = worker_at may_pass i (s.susp.worker i) s.susp } else s

-- `lace_steal_external` of a worker that runs: it takes what stands in `external_task`.
unfoldable pub take_at : (i : ℕ) → Worker → Option ℕ → Service → Service
unfolding steal_external
take_at i running (some j) s = record s {
  ext = steal_external s.ext;
  on = update s.on j (some i);
  load = update s.load i (s.load i + 1);
}
take_at i _ _ s = s

-- The worker comes to the end of a thread's task.
unfoldable pub end_at : (j : ℕ) → Option ℕ → Service → Service
unfolding finish
end_at j (some i) s = record s {
  ext = finish j (s.ext.pc j) s.ext;
  on = update s.on j none;
  load = update s.load i (s.load i - 1);
}
end_at j none s = s

pub data ServiceMove : Type 0 where
  calls : Kind → (j : ℕ) → ServiceMove
  thread : (luck : Bool) (j : ℕ) → ServiceMove
  loops : (may_pass : Bool) (i : ℕ) → ServiceMove
  takes : (i : ℕ) → ServiceMove
  ends : (j : ℕ) → ServiceMove

unfoldable pub serve : (n : ℕ) → Service → ServiceMove → Service
unfolding call_run phase_at loop_at take_at end_at
serve n s (calls k j) = call_run n k j (s.phase j) (s.susp.caller j) s
serve n s (thread luck j) = phase_at luck n j (s.phase j) s
serve n s (loops may_pass i) = loop_at may_pass i s
serve n s (takes i) = take_at i (s.susp.worker i) s.ext.external_task s
serve n s (ends j) = end_at j (s.on j) s

abbrev pub run_service : (n : ℕ) → List ServiceMove → Service → Service
run_service n l s = foldl (serve n) s l
