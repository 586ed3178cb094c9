-- ===== src/Deque/State.antt =====
-- src/lace.h, `Task`, `TailSplit`, `Worker`, `WorkerP`: one worker's task deque, with the owner
-- and the thieves that work on it at points between two accesses to shared memory.
use lace.Prelude.{ℕ, Bool, List}

-- The `thief` field of a task: 0x0, 0x1, a worker, 0x2.
pub data Thief : Type 0 where
  empty : Thief
  task : Thief
  worker : (k : ℕ) → Thief
  completed : Thief

-- `TailSplitNA`: the two halves of the 64-bit word that thieves read and swap at once.
pub record TailSplit : Type 0 where
  pub tail : ℕ  -- uint32_t
  pub split : ℕ  -- uint32_t

-- The public part; `dq` is the same array as the private part's.
pub record Worker : Type 0 where
  pub ts : TailSplit
  pub allstolen : Bool
  pub movesplit : Bool

-- The private part. `split` and `end` are pointers into `dq`, here indices.
pub record WorkerP : Type 0 where
  pub split : ℕ
  pub allstolen : Bool
  pub end : ℕ

-- The results of `lace_steal`.
pub data StealResult : Type 0 where
  stolen busy nowork : StealResult

-- Where a call of `lace_steal` on this deque stands, with its local variables.
pub data ThiefPc : Type 0 where
  rest : (result : StealResult) → ThiefPc  -- before the call, or returned
  looked : ThiefPc  -- `allstolen` was 0
  loaded : (ts : TailSplit) → ThiefPc  -- read the pair, tail < split
  won : (i : ℕ) → ThiefPc  -- the compare-exchange succeeded
  marked : (i : ℕ) → ThiefPc  -- stored itself in the task's `thief`
  running : (i : ℕ) → ThiefPc  -- inside `t->f`
  asking : ThiefPc  -- no shared task seen
  requesting : ThiefPc  -- `movesplit` was 0

-- `SYNC` executes a task that was not stolen, `DROP` does not.
pub data Pop : Type 0 where
  sync drop : Pop

-- Where the owner stands.
pub data OwnerPc : Type 0 where
  ready : OwnerPc  -- in application code, or in the loop of `lace_leapfrog`
  overflow : OwnerPc  -- `lace_abort_stack_overflow` ended the program
  spawning : OwnerPc  -- the task is written at the head
  unasking : OwnerPc  -- `allstolen`: before `movesplit`, which was read as set, is cleared
  reopening : OwnerPc  -- `allstolen`: before the store of `ts.v`
  reopened : OwnerPc  -- after it
  growing : OwnerPc  -- `movesplit` was read as set
  grown : OwnerPc  -- the split point was moved up
  popping : Pop → OwnerPc  -- entry of `SYNC` or `lace_drop`
  slow : Pop → OwnerPc  -- entry of `SYNC_SLOW` or `lace_drop_slow`
  shrinking : Pop → TailSplit → OwnerPc  -- `lace_shrink_shared` has read `ts.v`
  shrunk : Pop → (newsplit split : ℕ) → OwnerPc  -- it has stored `newsplit`
  mending : Pop → (newsplit : ℕ) → OwnerPc  -- the tail was beyond it
  all_gone : OwnerPc  -- nothing shared is left
  regrow : OwnerPc  -- `SYNC_SLOW` after its `if`
  regrowing : OwnerPc  -- `movesplit` was read as set
  regrown : OwnerPc
  taking : OwnerPc  -- before the task at the head is executed here
  leaping : OwnerPc  -- entry of `lace_leapfrog`
  spinning : OwnerPc  -- the thief has not stored itself yet
  landed : OwnerPc  -- after its loop
  clearing : OwnerPc  -- before the task's `thief` is reset

pub data Command : Type 0 where
  spawn sync_next drop_next land share : Command

-- The shared memory of one deque, its owner, the calls of `lace_steal` on it.
pub record System : Type 0 where
  pub wt : Worker
  pub w : WorkerP
  pub thief : ℕ → Thief
  pub f : ℕ → ℕ  -- function and arguments: the number of the spawn that wrote them
  pub head : ℕ  -- __lace_dq_head
  pub at : OwnerPc
  pub pins : List ℕ  -- stolen tasks that the owner waits for, the innermost first
  pub pc : ℕ → ThiefPc
  pub spawned : ℕ  -- spawns so far, counted where the task becomes part of the deque
  pub runs : ℕ → ℕ  -- for each spawn, how often its task was started
  pub dropped : ℕ → Bool  -- the spawns whose task `DROP` discarded
