-- ===== src/Counters/Slices.antt =====
-- Where the clock ticks of a worker are counted.
use lace.Prelude.{ℕ, ◌+◌, ◌-◌, ◌^◌, subst, ◌≤◌, ◌<◌, ◌≡◌, arith, List, [], ◌∷◌}
use lace.Counters.{Meter, Event, exit_sync, other, time_event, restart_clock}

abbrev pub slices : (ℕ → ℕ) → ℕ
slices c = c 12 + c 13 + c 14 + c 15 + c 16 + c 17

-- The slices of a worker add up to the time since `start`; the successful steals and the signals
-- are part of the time spent with stealing.
pub record Accounted (start : ℕ) (w : Meter) : Type 0 where
  pub all : slices w.ctr + start ≡ w.time
  pub steal : w.ctr 18 + w.ctr 20 ≤ w.ctr 16
  pub leap : w.ctr 19 + w.ctr 21 ≤ w.ctr 17
  pub small : w.time < 2 ^ 64

-- The times of the events grow, and a sync on a stolen task ends only after one began.
abbrev pub Proper : Event → (now : ℕ) → Meter → Type 0
Proper e now w = (w.time ≤ now) × (now < 2 ^ 64) × (e ≡ exit_sync → 2 ≤ w.level)

event-Accounted :
    (start now : ℕ) (e : Event) (w : Meter)
    → Accounted start w
    → Proper e now w
    → Accounted start (time_event now e w)
unfolding time_event
event-Accounted start now other w ok proper = ok
event-Accounted start now e w ok proper = record {
  all = ground (arith, ok.all, proper);
  steal = ground (arith, ok.all, ok.steal, proper);
  leap = ground (arith, ok.all, ok.leap, proper);
  small = proper.1;
}

restart-Accounted :
    (start now : ℕ) (w : Meter)
    → Accounted start w
    → w.time ≤ now
    → now < 2 ^ 64
    → Accounted (start + (now - w.time)) (restart_clock now w)
unfolding restart_clock
restart-Accounted start now w ok later small = record {
  all = ground (arith, ok.all);
  steal = ok.steal;
  leap = ok.leap;
  small = small;
}

-- What changes a worker's meter: an event, or the begin of `lace_steal_loop`.
pub data Entry : Type 0 where
  event : Event → Entry
  loop_begins : Entry

-- A worker's entries with their times.
abbrev pub Log : Type 0
Log = List (ℕ × Entry)

unfoldable pub run_events : Meter → Log → Meter
run_events w [] = w
run_events w ((now, event e) ∷ log) = run_events (time_event now e w) log
run_events w ((now, loop_begins) ∷ log) = run_events (restart_clock now w) log

-- The time from the last event before each begin of `lace_steal_loop` to this.
unfoldable pub uncounted : Meter → Log → ℕ
uncounted w [] = 0
uncounted w ((now, event e) ∷ log) = uncounted (time_event now e w) log
uncounted w ((now, loop_begins) ∷ log) = now - w.time + uncounted (restart_clock now w) log

unfoldable pub IsProper : Meter → Log → Type 0
IsProper w [] = Unit
IsProper w ((now, event e) ∷ log) = Proper e now w × IsProper (time_event now e w) log
IsProper w ((now, loop_begins) ∷ log) =
    (w.time ≤ now) × (now < 2 ^ 64) × IsProper (restart_clock now w) log

-- From a meter that is accounted for since `start`, where the times grow and stay below 2 ^ 64 and a
-- sync on a stolen task ends only after one began: the six time slices, and the time from an event to
-- the begin of `lace_steal_loop` that follows it, add up to the time since `start`; and the time of
-- successful steals and of signals is part of that of stealing, for leaps as well.
pub run_events-Accounted :
    (start : ℕ) (w : Meter) (log : Log)
    → Accounted start w
    → IsProper w log
    → Accounted (start + uncounted w log) (run_events w log)
unfolding run_events IsProper uncounted
run_events-Accounted start w [] ok proper = subst (λ from. Accounted from w) (omega arith) ok
run_events-Accounted start w ((now, event e) ∷ log) ok proper =
    run_events-Accounted start (time_event now e w) log (event-Accounted start now e w ok proper.0)
      proper.1
run_events-Accounted start w ((now, loop_begins) ∷ log) ok proper =
    subst (λ from. Accounted from (run_events (restart_clock now w) log)) (omega arith)
      (run_events-Accounted (start + (now - w.time)) (restart_clock now w) log
        (restart-Accounted start now w ok proper.0 proper.1) proper.2)
