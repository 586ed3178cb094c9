-- ===== src/External.antt =====
-- src/lace.c, `lace_run_task`, `lace_run_task_exclusive` and `lace_steal_external`: threads that are
-- no workers offer tasks, one of them alone or several together. A step is one critical section of
-- `external_task_lock` or one access outside it.
pub mod Invariant
pub mod Changes
pub mod Run
pub mod Lost
pub mod Safety
pub mod Value
mod Tests
use lace.Prelude.{
  ℕ, ◌+◌, ◌-◌, Bool, true, false, ◌&&◌, Option, none, some, ltb, ◌==◌, if◌then◌else◌, update,
}

-- `lace_run_task` or `lace_run_task_exclusive`.
pub data Kind : Type 0 where
  shared exclusive : Kind

-- Where a thread stands in them. `woken` is whether a broadcast has reached its wait.
pub data Pc : Type 0 where
  idle : Pc
  entering : Kind → Pc  -- before the first lock
  asleep : Kind → (woken : Bool) → Pc  -- waits while `external_task_exclusive`
  draining : (woken : Bool) → Pc  -- waits while `external_task_counter > 0`
  posting : Kind → (exp : Option ℕ) → Pc  -- the loop of compare-exchanges
  queued : Kind → Pc  -- its task stands in `external_task`
  taken : Kind → Pc  -- a worker runs its task
  finished : Kind → Pc  -- the semaphore was posted

pub record Externals : Type 0 where
  pub external_task : Option ℕ  -- the thread whose `ExtTask` it is
  pub counter : ℕ  -- external_task_counter
  pub is_exclusive : Bool  -- external_task_exclusive
  pub pc : ℕ → Pc

abbrev pub no_tasks : Externals
no_tasks = record { external_task = none; counter = 0; is_exclusive = false; pc = λ _. idle }

-- `pthread_cond_broadcast`
abbrev pub wake : Pc → Pc
wake (asleep k _) = asleep k true
wake (draining _) = draining true
wake p = p

unfoldable pub goto : ℕ → Pc → Externals → Externals
goto i p s = record s { pc = update s.pc i p }

-- After `exclusive` is set, or a wake-up: wait until the other tasks are done.
unfoldable pub drain : ℕ → Externals → Externals
unfolding goto
drain i s = if ltb 0 s.counter then goto i (draining false) s else goto i (posting exclusive none) s

-- The first critical section, from its test of `external_task_exclusive`.
unfoldable pub claim : Kind → ℕ → Externals → Externals
unfolding goto drain
claim shared i s =
    if s.is_exclusive
    then goto i (asleep shared false) s
    else record s { counter = s.counter + 1; pc = update s.pc i (posting shared none) }
claim exclusive i s =
    if s.is_exclusive
    then goto i (asleep exclusive false) s
    else drain i (record s { is_exclusive = true })

abbrev pub same : Option ℕ → Option ℕ → Bool
same none none = true
same (some i) (some j) = i == j
same _ _ = false

-- One `atomic_compare_exchange_weak`, which may fail for no reason. A failed one stores in `exp`
-- what it found.
unfoldable pub post : Bool → Kind → Option ℕ → ℕ → Externals → Externals
unfolding goto
post luck k exp i s =
    if same s.external_task exp && luck
    then record s { external_task = some i; pc = update s.pc i (queued k) }
    else goto i (posting k s.external_task) s

-- The second critical section.
unfoldable pub release : Kind → ℕ → Externals → Externals
release shared i s =
    let pc' = update s.pc i idle in
    record s {
      counter = s.counter - 1;
      pc = if s.is_exclusive && (s.counter - 1 == 0) then (λ j. wake (pc' j)) else pc';
    }
release exclusive i s = record s { is_exclusive = false; pc = λ j. wake (update s.pc i idle j) }

-- The next step of thread `i`. `luck` is for the compare-exchange, and for waking up from a wait
-- with no broadcast.
unfoldable pub thread_at : Bool → ℕ → Pc → Externals → Externals
unfolding claim post release drain
thread_at luck i idle s = s
thread_at luck i (entering k) s = claim k i s
thread_at luck i (asleep k true) s = claim k i s
thread_at luck i (asleep k false) s = if luck then claim k i s else s
thread_at luck i (draining true) s = drain i s
thread_at luck i (draining false) s = if luck then drain i s else s
thread_at luck i (posting k exp) s = post luck k exp i s
thread_at luck i (queued k) s = s
thread_at luck i (taken k) s = s
thread_at luck i (finished k) s = release k i s

unfoldable pub start : Kind → ℕ → Pc → Externals → Externals
unfolding goto
start k i idle s = goto i (entering k) s
start k i _ s = s

-- A worker runs the task to its end, and posts the semaphore.
unfoldable pub finish : ℕ → Pc → Externals → Externals
unfolding goto
finish i (taken k) s = goto i (finished k) s
finish i _ s = s

-- A worker takes what it found: the atomic exchange leaves nothing. How often a task is taken is
-- counted in External/Value.
unfoldable pub take : ℕ → Pc → Externals → Externals
take i (queued k) s = record s { external_task = none; pc = update s.pc i (taken k) }
take i _ s = record s { external_task = none }

-- `lace_steal_external`: the atomic exchange.
unfoldable pub steal_external : Externals → Externals
unfolding take
steal_external s = elim (s.external_task) [ none ↦ s | some i ↦ take i (s.pc i) s ]

pub data Move : Type 0 where
  call : Kind → (i : ℕ) → Move  -- thread `i` calls one of the two
  thread : (luck : Bool) (i : ℕ) → Move
  worker_takes : Move
  worker_finishes : (i : ℕ) → Move

unfoldable pub step : Externals → Move → Externals
unfolding start thread_at steal_external finish
step s (Move.call k i) = start k i (s.pc i) s
step s (Move.thread luck i) = thread_at luck i (s.pc i) s
step s Move.worker_takes = steal_external s
step s (Move.worker_finishes i) = finish i (s.pc i) s
