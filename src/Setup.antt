-- ===== src/Setup.antt =====
-- src/lace.c and src/lace.h, what `lace_start` computes before it creates the threads, and the
-- logical processor that `lace_pin_worker` pins a worker to. Allocation, threads and hwloc are the
-- system's.
pub mod Sizes
pub mod Pinning
mod Tests
use lace.Prelude.{
  ℕ, zero, suc, ◌+◌, ◌-◌, ◌*◌, ◌/◌, ◌%◌, ◌^◌, Option, none, some, ltb, ◌==◌, if◌then◌else◌, u64,
  List, [], ◌∷◌,
}
use Prim.Native.Nat.{bit_and}

abbrev pub line_size : ℕ
line_size = 64

-- PAD(x, LINE_SIZE)
unfoldable pub pad : ℕ → ℕ
pad x = bit_and (line_size - x % line_size) (line_size - 1)

-- ROUND(x, LINE_SIZE)
unfoldable pub round : ℕ → ℕ
unfolding pad
round x = x + pad x

-- The globals that `lace_start` sets, and `lace_set_stacksize`.
pub record Config : Type 0 where
  pub n_workers : ℕ
  pub default_dqsize : ℕ
  pub stacksize : ℕ

abbrev pub initial : Config
initial = record { n_workers = 0; default_dqsize = 100000; stacksize = 0 }

abbrev pub set_stacksize : ℕ → Config → Config
set_stacksize size c = record c { stacksize = size }

-- The beginning of `lace_start`, on a machine with `n_pus` logical processors.
unfoldable pub configure : (n_pus n_workers dqsize : ℕ) → Config → Config
configure n_pus n dqsize c = record c {
  n_workers = if n == 0 then n_pus else n;
  default_dqsize = if dqsize == 0 then c.default_dqsize else dqsize;
}

-- `dqsize` from there on.
unfoldable pub start_dqsize : (dqsize : ℕ) → Config → ℕ
start_dqsize dqsize c = if dqsize == 0 then c.default_dqsize else dqsize

-- `to_allocate`: the bytes of an array with a pointer per worker, with pointers of 8 bytes.
unfoldable pub to_allocate : (n_workers : ℕ) → ℕ
to_allocate n = bit_and (u64 (u64 (u64 (n * 8) + line_size) + 2 ^ 64 - 1)) (2 ^ 64 - line_size)

-- Where `deque` begins in `worker_data`, for the sizes of `Worker` and `WorkerP`.
unfoldable pub private_offset : (worker : ℕ) → ℕ
unfolding pad
private_offset worker = worker + pad worker

unfoldable pub deque_offset : (worker worker_p : ℕ) → ℕ
unfolding private_offset pad
deque_offset worker worker_p = private_offset worker + worker_p + pad worker_p

-- `workers_memory_size`
unfoldable pub workers_memory_size : (worker_data task dqsize : ℕ) → ℕ
workers_memory_size worker_data task dqsize = u64 (worker_data + u64 (task * dqsize))

-- The stack size of the threads, for the limit of the process; 0 leaves it to Lace.
unfoldable pub thread_stacksize : (rlim_cur : ℕ) → Config → ℕ
thread_stacksize rlim c =
    if c.stacksize == 0
    then (if ltb (16 * 1024 * 1024) rlim then 16 * 1024 * 1024 else rlim)
    else c.stacksize

-- The logical processors of a core, as `hwloc_bitmap_next` goes through them.
abbrev pub count : List ℕ → ℕ
count [] = 0
count (_ ∷ l) = count l + 1

-- After `idx` + 1 calls of `hwloc_bitmap_next`; it gives -1 at the end.
abbrev pub nth : List ℕ → (idx : ℕ) → Option ℕ
nth [] idx = none
nth (p ∷ l) zero = some p
nth (p ∷ l) (suc idx) = nth l idx

-- The core of a worker, and its index there.
abbrev pub core : (n_cores worker : ℕ) → ℕ
core n_cores worker = worker % n_cores

abbrev pub pu_index : (n_cores : ℕ) (cpuset : List ℕ) (worker : ℕ) → ℕ
pu_index n_cores cpuset worker =
    if ltb (worker / n_cores) (count cpuset)
    then worker / n_cores
    else worker / n_cores % count cpuset

-- The processor that `lace_pin_worker` pins a worker to, on a machine whose core `c` has the set
-- `cpuset c`; it exits where the set is empty.
unfoldable pub pin_worker : (n_cores : ℕ) (cpuset : ℕ → List ℕ) (worker : ℕ) → Option ℕ
pin_worker n_cores cpuset worker =
    if count (cpuset (core n_cores worker)) == 0
    then none
    else nth (cpuset (core n_cores worker)) (pu_index n_cores (cpuset (core n_cores worker)) worker)
