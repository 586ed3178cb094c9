-- ===== src/Counters.antt =====
-- src/lace.h and src/lace.c, what Lace counts and times of its workers when it is built to: the
-- counters, `lace_time_event`, `lace_count_reset` and the numbers of `lace_count_report_file`.
pub mod Slices
pub mod Report
mod Tests
use lace.Prelude.{
  ℕ, zero, suc, ◌+◌, ◌-◌, ◌*◌, ◌/◌, ◌^◌, Bool, not, Option, none, some, ltb, ◌==◌, if◌then◌else◌,
  u32, u64, sub64, update, List, [], ◌∷◌,
}

-- `CTR_index`, with all of the compile-time flags.
pub data Ctr : Type 0 where
  tasks steal_tries leap_tries steals leaps steal_busy leap_busy : Ctr
  split_grow split_shrink split_req fast_sync slow_sync : Ctr
  init close wapp lapp wsteal lsteal wstealsucc lstealsucc wsignal lsignal : Ctr

abbrev pub index : Ctr → ℕ
index tasks = 0
index steal_tries = 1
index leap_tries = 2
index steals = 3
index leaps = 4
index steal_busy = 5
index leap_busy = 6
index split_grow = 7
index split_shrink = 8
index split_req = 9
index fast_sync = 10
index slow_sync = 11
index init = 12
index close = 13
index wapp = 14
index lapp = 15
index wsteal = 16
index lsteal = 17
index wstealsucc = 18
index lstealsucc = 19
index wsignal = 20
index lsignal = 21

-- The part of `WorkerP` under `LACE_COUNT_EVENTS`. `level` is an `int`, as a word.
pub record Meter : Type 0 where
  pub ctr : ℕ → ℕ  -- uint64_t ctr[CTR_MAX]
  pub time : ℕ  -- uint64_t
  pub level : ℕ

-- `PR_ADD`
abbrev pub add : Ctr → ℕ → (ℕ → ℕ) → ℕ → ℕ
add c k ctr = update ctr (index c) (u64 (ctr (index c) + k))

-- The events of `lace_time_event`, with their numbers.
pub data Event : Type 0 where
  enter_app : Event  -- 1
  exit_app : Event  -- 2
  enter_sync : Event  -- 3
  exit_sync : Event  -- 4
  failed_steal : Event  -- 7
  signalled : Event  -- 8
  finished : Event  -- 9
  other : Event

-- The counters after an event, `d` clock ticks after the one before.
unfoldable pub event_ctr : Event → (level d : ℕ) → (ℕ → ℕ) → ℕ → ℕ
event_ctr enter_app level d ctr =
    if level == 0
    then add init d ctr
    else if level == 1
    then add wstealsucc d (add wsteal d ctr)
    else add lstealsucc d (add lsteal d ctr)
event_ctr exit_app level d ctr = if level == 1 then add wapp d ctr else add lapp d ctr
event_ctr enter_sync level d ctr = if level == 1 then add wapp d ctr else add lapp d ctr
event_ctr exit_sync level d ctr = if level == 1 then ctr else add lsteal d ctr
event_ctr failed_steal level d ctr =
    if level == 0 then add init d ctr else if level == 1 then add wsteal d ctr else add lsteal d ctr
event_ctr signalled level d ctr =
    if level == 1 then add wsteal d (add wsignal d ctr) else add lsteal d (add lsignal d ctr)
event_ctr finished level d ctr = if level == 0 then add init d ctr else add close d ctr
event_ctr other level d ctr = ctr

unfoldable pub event_level : Event → ℕ → ℕ
event_level enter_app level = if level == 0 then 1 else level
event_level enter_sync level = u32 (level + 1)
event_level exit_sync level = u32 (level + 2 ^ 32 - 1)
event_level _ level = level

-- `lace_time_event`, at the time `now`.
unfoldable pub time_event : (now : ℕ) → Event → Meter → Meter
unfolding event_ctr event_level
time_event now other w = w
time_event now e w = record {
  ctr = event_ctr e w.level (sub64 now w.time) w.ctr;
  time = now;
  level = event_level e w.level;
}

-- `lace_steal_loop` begins, in a new thread or a new frame: it stores the time and counts nothing.
unfoldable pub restart_clock : (now : ℕ) → Meter → Meter
restart_clock now w = record w { time = now }

-- `lace_count_reset` on worker `i`.
unfoldable pub count_reset : (now i : ℕ) → Meter → Meter
count_reset now i w = record { ctr = λ _. 0; time = now; level = if i == 0 then w.level else 0 }

-- `ctr_all[j]` of `n` workers.
unfoldable pub ctr_all : (ℕ → Meter) → (n : ℕ) → Ctr → ℕ
ctr_all w zero c = 0
ctr_all w (suc n) c = u64 (ctr_all w n c + (w n).ctr (index c))

-- "Tasks per steal", where it is printed.
unfoldable pub tasks_per_steal : (Ctr → ℕ) → Option ℕ
tasks_per_steal ctr =
    if ltb 0 (u64 (ctr steals + ctr leaps))
    then some (ctr tasks / u64 (ctr steals + ctr leaps))
    else none

-- "Steal search" and "Leap search", in clock ticks.
unfoldable pub steal_search : (Ctr → ℕ) → ℕ
steal_search ctr = sub64 (sub64 (ctr wsteal) (ctr wstealsucc)) (ctr wsignal)

unfoldable pub leap_search : (Ctr → ℕ) → ℕ
leap_search ctr = sub64 (sub64 (ctr lsteal) (ctr lstealsucc)) (ctr lsignal)

-- `sum_count`, printed as the "total time".
unfoldable pub sum_count : (Ctr → ℕ) → ℕ
sum_count ctr = u64 (
    ctr init
    + ctr wapp
    + ctr lapp
    + ctr wsteal
    + ctr lsteal
    + ctr close
    + ctr wstealsucc
    + ctr lstealsucc
    + ctr wsignal
    + ctr lsignal)

-- `count_per_ms`: a fault where the elapsed time is below a millisecond.
unfoldable pub count_per_ms : (count_at_start count_at_end us_elapsed : ℕ) → Option ℕ
count_per_ms from to us = if us / 1000 == 0 then none else some (sub64 to from / (us / 1000))
