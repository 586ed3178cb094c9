-- ===== src/Lifecycle.antt =====
-- src/lace.c, the threads from `lace_start` to `lace_stop`, with `lace_worker_thread` and the test of
-- `lace_quits` in `lace_steal_loop`. A step is one access to shared memory.
pub mod Invariant
pub mod Workers
pub mod Callers
pub mod Safety
mod Tests
use lace.Prelude.{
  ℕ, zero, suc, ◌+◌, ◌-◌, ◌^◌, Bool, true, false, not, ltb, ◌==◌, if◌then◌else◌, u32, update,
}

-- Where a worker thread stands.
pub data Worker : Type 0 where
  unborn : Worker
  initializing : Worker  -- lace_init_worker, lace_pin_worker
  asleep : Worker  -- waits for `suspend_semaphore`
  joining : Worker  -- before `workers_running += 1`
  looping : Worker  -- lace_steal_loop, before it reads `lace_quits`
  working : Worker  -- in a round of it
  ending : Worker  -- before `workers_running -= 1`
  gone : Worker

-- Where the caller stands.
pub data Caller : Type 0 where
  creating : (i : ℕ) → Caller  -- pthread_create
  posting : (left : ℕ) → Caller  -- lace_resume of lace_start
  using : Caller  -- between lace_start and lace_stop
  waiting : Caller  -- while (workers_running != n_workers)
  quitting : Caller  -- before `lace_quits` is set
  draining : Caller  -- while (workers_running != 0)
  reporting : Caller  -- lace_count_report_file
  freeing : (i : ℕ) → Caller  -- free(workers_memory[i])
  stopped : Caller

pub record Threads : Type 0 where
  pub lace_quits : Bool
  pub workers_running : ℕ  -- atomic_uint
  pub semaphore : ℕ  -- suspend_semaphore
  pub memory : ℕ → Bool  -- whether workers_memory[i] is allocated
  pub worker : ℕ → Worker
  pub caller : Caller

-- After the globals are initialized.
abbrev pub lace_start : Threads
lace_start = record {
  lace_quits = false;
  workers_running = 0;
  semaphore = 0;
  memory = λ _. false;
  worker = λ _. unborn;
  caller = creating 0;
}

unfoldable pub set_worker : ℕ → Worker → Threads → Threads
set_worker i p s = record s { worker = update s.worker i p }

-- The next access of worker `i`; a thread that was not created makes none.
unfoldable pub worker_at : (i : ℕ) → Worker → Threads → Threads
unfolding set_worker
worker_at i initializing s = set_worker i asleep (record s { memory = update s.memory i true })
worker_at i asleep s =
    if ltb 0 s.semaphore then set_worker i joining (record s { semaphore = s.semaphore - 1 }) else s
worker_at i joining s =
    set_worker i looping (record s { workers_running = u32 (s.workers_running + 1) })
worker_at i looping s = set_worker i (if s.lace_quits then ending else working) s
worker_at i working s = set_worker i looping s
worker_at i ending s =
    set_worker i gone (record s { workers_running = u32 (s.workers_running + 2 ^ 32 - 1) })
worker_at i _ s = s

unfoldable pub set_caller : Caller → Threads → Threads
set_caller p s = record s { caller = p }

-- The next access of the caller, of `n` workers.
unfoldable pub caller_at : (n : ℕ) → Caller → Threads → Threads
unfolding set_caller set_worker
caller_at n (creating i) s =
    if i == n
    then set_caller (posting n) s
    else set_caller (creating (i + 1)) (set_worker i initializing s)
caller_at n (posting zero) s = set_caller using s
caller_at n (posting (suc k)) s = set_caller (posting k) (record s { semaphore = s.semaphore + 1 })
caller_at n using s = set_caller waiting s
caller_at n waiting s = if s.workers_running == n then set_caller quitting s else s
caller_at n quitting s = set_caller draining (record s { lace_quits = true })
caller_at n draining s = if s.workers_running == 0 then set_caller reporting s else s
caller_at n reporting s = set_caller (freeing 0) s
caller_at n (freeing i) s =
    if i == n
    then set_caller stopped s
    else set_caller (freeing (i + 1)) (record s { memory = update s.memory i false })
caller_at n stopped s = s

pub data Move : Type 0 where
  worker : (i : ℕ) → Move
  caller : Move

unfoldable pub step : (n : ℕ) → Threads → Move → Threads
unfolding worker_at caller_at
step n s (Move.worker i) = worker_at i (s.worker i) s
step n s Move.caller = caller_at n s.caller s
