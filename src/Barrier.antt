-- ===== src/Barrier.antt =====
-- src/lace.c, `barrier_t`, `lace_barrier`, `lace_barrier_init`, `lace_barrier_destroy`: the barrier
-- of the workers, one access to shared memory at a time.
pub mod Invariant
pub mod Arriving
pub mod Opening
pub mod Leaving
pub mod Safety
pub mod Refinement
mod Tests
use lace.Prelude.{
  ℕ, suc, ◌+◌, ◌-◌, ◌^◌, Bool, List, [], ◌∷◌, foldl, ◌==◌, if◌then◌else◌, u32, update, bump,
}

-- Where a worker stands in `lace_barrier`, with its local variable `wait`.
pub data Pc : Type 0 where
  out : Pc
  entered : (wait : ℕ) → Pc  -- read `lace_bar.wait`
  waiting : (wait : ℕ) → Pc  -- counted itself, not the last
  resetting : (wait : ℕ) → Pc  -- the last: before `count` is reset
  arming : (wait : ℕ) → Pc  -- before `leaving` is set
  flipping : (wait : ℕ) → Pc  -- before `wait` is flipped
  leaving : Pc  -- before `leaving` is decreased

-- Which of the last worker's stores have been made.
pub data Phase : Type 0 where
  gathering reset armed : Phase

-- `lace_bar`, and the workers; the last four fields only count what happened.
pub record Barrier : Type 0 where
  pub count : ℕ
  pub unleft : ℕ  -- the field `leaving`
  pub wait : ℕ
  pub pc : ℕ → Pc
  pub phase : Phase
  pub flips : ℕ  -- stores to `wait`
  pub arrivals : ℕ → ℕ  -- how often each worker has counted itself
  pub departures : ℕ → ℕ  -- how often each worker has left

-- `lace_barrier_init`
abbrev pub barrier_init : Barrier
barrier_init = record {
  count = 0;
  unleft = 0;
  wait = 0;
  pc = λ _. out;
  phase = gathering;
  flips = 0;
  arrivals = λ _. 0;
  departures = λ _. 0;
}

-- `lace_barrier_destroy` ends when this holds.
unfoldable pub all_left : Barrier → Bool
all_left b = b.unleft == 0

-- The next access of worker `i` of `n`; from `out` it enters the barrier.
unfoldable pub barrier_at : (n i : ℕ) → Pc → Barrier → Barrier
barrier_at n i out b = record b { pc = update b.pc i (entered b.wait) }
barrier_at n i (entered w) b = record b {
  count = u32 (b.count + 1);
  arrivals = bump b.arrivals i;
  pc = update b.pc i (if n == 1 + b.count then resetting w else waiting w);
}
barrier_at n i (waiting w) b = record b {
  pc = update b.pc i (if w == b.wait then waiting w else leaving);
}
barrier_at n i (resetting w) b = record b {
  count = 0;
  phase = reset;
  pc = update b.pc i (arming w);
}
barrier_at n i (arming w) b = record b {
  unleft = n;
  phase = armed;
  pc = update b.pc i (flipping w);
}
barrier_at n i (flipping w) b = record b {
  wait = 1 - w;
  flips = b.flips + 1;
  phase = gathering;
  pc = update b.pc i leaving;
}
barrier_at n i leaving b = record b {
  unleft = u32 (b.unleft + 2 ^ 32 - 1);
  departures = bump b.departures i;
  pc = update b.pc i out;
}

unfoldable pub barrier_step : (n : ℕ) → Barrier → ℕ → Barrier
unfolding barrier_at
barrier_step n b i = barrier_at n i (b.pc i) b
