-- ===== src/External/Value.antt =====
-- src/lace.h, `NAME_RUN` and `NAME_RUNEX`: a thread that is no worker has a task run and reads its
-- result, through `lace_run_task` or `lace_run_task_exclusive`.
pub mod Right
pub mod Stages
mod Tests
use lace.Prelude.{ℕ, Bool, Option, none, some, List, foldl, update, bump}
use lace.Deque.Value.{Union, blank, args, wrap, result}
use lace.External.{
  Kind, Pc, idle, taken, finished, Externals, no_tasks, Move, thread_at, start, steal_external,
  finish, step,
}

-- The threads with the unions of the tasks on their stacks. `given`, `returned` and `runs` are of a
-- thread's latest call, and not in the program: what it was given, what it has returned, and how
-- often workers have called the task's `f`.
pub record Callers (A R : Type 0) : Type 0 where
  pub ext : Externals
  pub d : ℕ → Union A R
  pub given : ℕ → Option A
  pub returned : ℕ → Option R
  pub runs : ℕ → ℕ

abbrev pub no_callers : {A R : Type 0} → Callers A R
no_callers = record {
  ext = no_tasks;
  d = λ _. blank;
  given = λ _. none;
  returned = λ _. none;
  runs = λ _. 0;
}

pub data RunMove (A : Type 0) : Type 0 where
  run : Kind → A → (i : ℕ) → RunMove A  -- `RUN` or `RUNEX`
  runs_on : (luck : Bool) (i : ℕ) → RunMove A
  takes : RunMove A
  finishes : (i : ℕ) → RunMove A

abbrev pub move_of : {A : Type 0} → RunMove A → Move
move_of (run k a i) = Move.call k i
move_of (runs_on luck i) = Move.thread luck i
move_of takes = Move.worker_takes
move_of (finishes i) = Move.worker_finishes i

-- `NAME_RUN` of thread `i` up to its call of `lace_run_task`.
unfoldable pub name_run : {A R : Type 0} → A → (i : ℕ) → Pc → Callers A R → Callers A R
name_run a i idle m = record m {
  d = update m.d i (args a);
  given = update m.given i (some a);
  returned = update m.returned i none;
  runs = update m.runs i 0;
}
name_run a i _ m = m

-- `return ((TD_NAME *)t)->d.res;` after `lace_run_task`, which ends at `finished`.
unfoldable pub name_returns : {A R : Type 0} → (i : ℕ) → Pc → Callers A R → Callers A R
unfolding result
name_returns i (finished k) m = record m { returned = update m.returned i (result (m.d i)) }
name_returns i _ m = m

-- A worker that finds a thread's `ExtTask` in `external_task` calls its `f`.
unfoldable pub took : {A R : Type 0} → Option ℕ → Callers A R → Callers A R
took (some i) m = record m { runs = bump m.runs i }
took none m = m

-- The end of the task's `f` in `lace_steal_external`, which is `NAME_WRAP`.
unfoldable pub called_f : {A R : Type 0} → (A → R) → (i : ℕ) → Pc → Callers A R → Callers A R
unfolding wrap
called_f work i (taken k) m = record m { d = update m.d i (wrap work (m.d i)) }
called_f work i _ m = m

-- What a move does to the unions, while the state of `External` is the old one.
unfoldable pub run_writes : {A R : Type 0} → (A → R) → RunMove A → Callers A R → Callers A R
unfolding name_run name_returns took called_f
run_writes work (run k a i) m = name_run a i (m.ext.pc i) m
run_writes work (runs_on luck i) m = name_returns i (m.ext.pc i) m
run_writes work takes m = took m.ext.external_task m
run_writes work (finishes i) m = called_f work i (m.ext.pc i) m

unfoldable pub run_act : {A R : Type 0} → (A → R) → Callers A R → RunMove A → Callers A R
unfolding run_writes step
run_act work m x = record (run_writes work x m) { ext = step m.ext (move_of x) }

abbrev pub run_all : {A R : Type 0} → (A → R) → List (RunMove A) → Callers A R → Callers A R
run_all work l m = foldl (run_act work) m l
