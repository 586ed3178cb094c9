-- ===== src/Lib.antt =====
-- Lace (src/lace.h, src/lace.c): a framework for fork-join parallelism by work stealing.
--
-- A program's tasks run on worker threads. Each worker owns a split deque of tasks (`Worker`,
-- `WorkerP`, an array of `Task`): `SPAWN` writes a task at its head, `SYNC` takes it back and
-- runs it, and other workers steal from the tail with `lace_steal`.
--
-- Deque/ models one deque, its owner and any number of calls of `lace_steal` on it, one access
-- to shared memory at a time. Deque/State.antt has the data: a constructor of `OwnerPc` or
-- `ThiefPc` is a point between two such accesses, with the local variables that are live there.
-- Deque/Steal.antt is `lace_steal`; Deque/Owner.antt is the code of the `TASK_1` macro for
-- `SPAWN`, `SYNC` and `SYNC_SLOW`, with `lace_drop`, `lace_shrink_shared` and `lace_leapfrog`,
-- which are the same for every number of parameters and in src/lace14.h. Deque/Interleaving.antt
-- runs any sequence of moves from the state of `lace_init_worker`. `LACE_MAKE_ALL_SHARED` is a
-- command too. While `lace_leapfrog` waits for a stolen task, the owner may do anything above
-- that task's slot: that covers the tasks it steals and the frames it enters meanwhile. Memory
-- is sequentially consistent; the relaxed orders and fences of the source are not modelled. A
-- task's body is a black box between its start and its end, but for Deque/Value.antt, which adds
-- the unions with the arguments and results of tasks: there a task's function is a parameter,
-- and Deque/Void.antt, which does it for tasks without a result. Deque/Params.antt is the macros
-- `TASK_n` and `VOID_TASK_n` for any number of parameters, over these two: `SPAWN` stores the
-- arguments field by field over what the slot held, the wrapper reads them field by field, and
-- Deque/Params/Returns and Deque/Params/Calls record what each `SPAWN` was called with;
-- Deque/Params/Arities and Deque/Params/Wide are those of src/lace.h and src/lace14.h.
-- Deque/Frame.antt is `lace_exec_in_new_frame` on one deque: the owner puts the deque aside,
-- runs a root task above it and puts it back. Deque/Slots and Deque/Invariant hold the
-- invariant; Deque/Safety.antt, Deque/Progress.antt, Deque/GetHead.antt and Deque/Dropping.antt
-- the theorems. Indices are numbers in place of pointers; `uint32_t` arithmetic wraps, and a
-- deque has fewer than 2 ^ 31 slots, so that the sum of two indices does not.
--
-- Head.antt is `lace_get_head`. Its loops take fuel; the size of the deque plus one is enough.
-- It reads the first four slots whatever the size is: on a smaller deque without a free slot
-- that is a fault.
--
-- Victim.antt is what an idle worker does: `rng`, `lace_steal_random` and `lace_steal_loop`;
-- Victim/Trng is `LACE_TRNG`. The loop runs over a list of what its rounds read of the shared
-- flags. A worker knows its number as a `uint16_t`. Victim/Choice and Victim/Fair hold the
-- theorems.
--
-- Barrier.antt is `lace_barrier` with `lace_barrier_init` and `lace_barrier_destroy`, one shared
-- access at a time; a list of workers is an interleaving. Barrier/Invariant holds the invariant,
-- Barrier/Arriving, Barrier/Opening and Barrier/Leaving the steps, Barrier/Safety and
-- Barrier/Refinement the theorems.
--
-- External.antt is `lace_run_task`, `lace_run_task_exclusive` and `lace_steal_external`: how
-- threads that are no workers have tasks run. A step is a critical section, or an access outside
-- of it; waiting for a condition may end with no broadcast, a weak compare-exchange may fail.
-- External/Invariant, External/Changes and External/Run hold the invariant, External/Safety and
-- External/Lost the theorems. External/Value.antt adds the arguments and results of `RUN` and
-- `RUNEX`. A worker's own call of `lace_run_task` only calls the task's `f`: it is a parameter
-- in Deque/Params.antt.
--
-- Suspend.antt is `lace_suspend` and `lace_resume` with what the workers do about them in
-- `lace_worker_thread` and `lace_steal_loop`, one shared access at a time. That `lace_barrier`
-- opens at the end of a resumption is a move of the schedule, at any time. A caller suspends
-- only after it resumed. Suspend/Invariant, Suspend/Workers and Suspend/Callers hold the
-- invariant, Suspend/Safety the theorems.
--
-- RunTask.antt is `lace_run_task` and `lace_run_task_exclusive` from beginning to end:
-- External.antt between the `lace_resume` and the `lace_suspend` of Suspend.antt, with the
-- workers that take the tasks. RunTask/Invariant, RunTask/Moves and RunTask/Workers hold the
-- invariant, RunTask/Safety the theorem.
--
-- NewFrame.antt is `lace_run_newframe` and `lace_run_together` with `lace_yield`: how all
-- workers come into one frame, frames inside frames included, and out of it, one shared access
-- at a time. The barrier opens when all workers are in it, as Barrier/Refinement shows of
-- `lace_barrier`. Two things that the source does not test are assumed of the program: a task
-- that begins a frame belongs to a root task that has not ended, and the last root task of a
-- frame ends when all workers are in application code or in their steal loops, not on their way
-- into another frame. NewFrame/Invariant, NewFrame/Opening, NewFrame/Steps, NewFrame/Ending and
-- NewFrame/Moving hold the invariant, NewFrame/Safety the theorems.
--
-- Lifecycle.antt is the threads from `lace_start` to `lace_stop`, with `lace_worker_thread`, one
-- shared access at a time, while nobody suspends the workers. Lifecycle/Invariant,
-- Lifecycle/Workers and Lifecycle/Callers hold the invariant, Lifecycle/Safety the theorem.
--
-- Counters.antt is what Lace counts and times of its workers: `lace_time_event`, the store of
-- the time with which `lace_steal_loop` begins, `lace_count_reset` and the numbers of
-- `lace_count_report_file`. Counters/Slices and Counters/Report hold the theorems.
--
-- Setup.antt is what `lace_start` computes, and the processor that `lace_pin_worker` chooses,
-- with hwloc's sets of processors as a parameter. Setup/Sizes and Setup/Pinning hold the
-- theorems.
--
-- Queens.antt is benchmarks/queens/queens-seq.c and queens-lace.c: `ok` and `nqueens`, the
-- sequential one and the one with tasks. `left` is the number of queens still to place, which
-- each call decreases. Queens/Count and Queens/Peace hold the theorems.
--
-- Prelude/ has what these share: tests, machine words, functions changed at one index, sums.
--
-- Not modelled: the calls of hwloc and of the system, external tasks that begin a frame inside
-- of a frame, suspending workers while Lace stops, and the other benchmarks.
pub mod Prelude
pub mod Deque
pub mod Head
pub mod Victim
pub mod Barrier
pub mod External
pub mod Suspend
pub mod RunTask
pub mod NewFrame
pub mod Lifecycle
pub mod Counters
pub mod Setup
pub mod Queens
