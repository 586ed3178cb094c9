-- ===== src/Suspend.antt =====
-- src/lace.c, `lace_resume` and `lace_suspend`, and what the workers do about them: the waits in
-- `lace_worker_thread` and `lace_steal_loop`. A step is one access to shared memory.
pub mod Invariant
pub mod Workers
pub mod Callers
pub mod Safety
mod Tests
use lace.Prelude.{ℕ, zero, suc, ◌+◌, ◌-◌, Bool, true, false, ◌&&◌, ltb, ◌==◌, if◌then◌else◌, update}

-- `lace_awaken_count`: its intermediate state -1, or how many callers use the workers.
pub data AwakenCount : Type 0 where
  intermediate : AwakenCount
  users : ℕ → AwakenCount

-- Where a worker stands.
pub data Worker : Type 0 where
  asleep : Worker  -- waits for `suspend_semaphore`
  rejoining : Worker  -- before `workers_running += 1`
  running : Worker  -- in its loop, before it reads `must_suspend`
  leaving : Worker  -- before `workers_running -= 1`

-- Where a caller stands.
pub data Caller : Type 0 where
  out : Caller
  -- lace_resume
  resuming : Caller  -- before it reads `lace_awaken_count`
  resuming_from : (state : ℕ) → Caller  -- before the compare-exchange
  posting : (left : ℕ) → Caller  -- `left` calls of `sem_post` to go
  -- between the two
  active : Caller
  -- lace_suspend
  suspending : Caller  -- before it reads `lace_awaken_count`
  suspending_from : (state : ℕ) → Caller  -- before the compare-exchange
  gathering : Caller  -- while (workers_running != n_workers)
  setting : Caller  -- before `must_suspend` is set
  stopping : Caller  -- while (workers_running != 0)
  clearing : Caller  -- before `must_suspend` is cleared
  closing : Caller  -- before 0 is stored

pub record Suspension : Type 0 where
  pub awaken_count : AwakenCount
  pub must_suspend : Bool
  pub semaphore : ℕ  -- suspend_semaphore
  pub workers_running : ℕ
  pub worker : ℕ → Worker
  pub caller : ℕ → Caller

-- After `lace_start`: the workers wait to be resumed for the first time.
abbrev pub just_started : Suspension
just_started = record {
  awaken_count = users 0;
  must_suspend = false;
  semaphore = 0;
  workers_running = 0;
  worker = λ _. asleep;
  caller = λ _. out;
}

unfoldable pub move_worker : ℕ → Worker → Suspension → Suspension
move_worker i p s = record s { worker = update s.worker i p }

unfoldable pub move_caller : ℕ → Caller → Suspension → Suspension
move_caller j p s = record s { caller = update s.caller j p }

-- `may_pass` is whether `lace_barrier`, which all but the first resumption end with, is open.
unfoldable pub worker_at : (may_pass : Bool) (i : ℕ) → Worker → Suspension → Suspension
unfolding move_worker
worker_at may_pass i asleep s =
    if ltb 0 s.semaphore
    then move_worker i rejoining (record s { semaphore = s.semaphore - 1 })
    else s
worker_at may_pass i rejoining s =
    if may_pass
    then move_worker i running (record s { workers_running = s.workers_running + 1 })
    else s
worker_at may_pass i running s = if s.must_suspend then move_worker i leaving s else s
worker_at may_pass i leaving s =
    move_worker i asleep (record s { workers_running = s.workers_running - 1 })

-- The weak compare-exchange on `lace_awaken_count`.
abbrev pub holds : (luck : Bool) → AwakenCount → ℕ → Bool
holds luck intermediate k = false
holds luck (users c) k = (c == k) && luck

-- Both functions begin to read `lace_awaken_count`.
unfoldable pub read_to_resume : ℕ → AwakenCount → Suspension → Suspension
unfolding move_caller
read_to_resume j intermediate s = s
read_to_resume j (users k) s = move_caller j (resuming_from k) s

unfoldable pub read_to_suspend : ℕ → AwakenCount → Suspension → Suspension
unfolding move_caller
read_to_suspend j intermediate s = s
read_to_suspend j (users zero) s = s
read_to_suspend j (users (suc k)) s = move_caller j (suspending_from (suc k)) s

-- The next access of caller `j`; out of the functions it enters the next one.
unfoldable pub caller_at : (luck : Bool) (n_workers j : ℕ) → Caller → Suspension → Suspension
unfolding move_caller read_to_resume read_to_suspend
caller_at luck n j out s = move_caller j resuming s
caller_at luck n j resuming s = read_to_resume j s.awaken_count s
caller_at luck n j (resuming_from zero) s =
    if holds luck s.awaken_count 0
    then move_caller j (posting n) (record s { awaken_count = intermediate })
    else move_caller j resuming s
caller_at luck n j (resuming_from (suc k)) s =
    if holds luck s.awaken_count (suc k)
    then move_caller j active (record s { awaken_count = users (suc k + 1) })
    else move_caller j resuming s
caller_at luck n j (posting (suc k)) s =
    move_caller j (posting k) (record s { semaphore = s.semaphore + 1 })
caller_at luck n j (posting zero) s = move_caller j active (record s { awaken_count = users 1 })
caller_at luck n j active s = move_caller j suspending s
caller_at luck n j suspending s = read_to_suspend j s.awaken_count s
caller_at luck n j (suspending_from k) s =
    if holds luck s.awaken_count k
    then (if k == 1
        then move_caller j gathering (record s { awaken_count = intermediate })
        else move_caller j out (record s { awaken_count = users (k - 1) }))
    else move_caller j suspending s
caller_at luck n j gathering s = if s.workers_running == n then move_caller j setting s else s
caller_at luck n j setting s = move_caller j stopping (record s { must_suspend = true })
caller_at luck n j stopping s = if s.workers_running == 0 then move_caller j clearing s else s
caller_at luck n j clearing s = move_caller j closing (record s { must_suspend = false })
caller_at luck n j closing s = move_caller j out (record s { awaken_count = users 0 })

pub data Move : Type 0 where
  worker : (may_pass : Bool) (i : ℕ) → Move
  caller : (luck : Bool) (j : ℕ) → Move

unfoldable pub step : (n_workers : ℕ) → Suspension → Move → Suspension
unfolding worker_at caller_at
step n s (Move.worker b i) = worker_at b i (s.worker i) s
step n s (Move.caller b j) = caller_at b n j (s.caller j) s
