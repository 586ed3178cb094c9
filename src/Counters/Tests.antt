-- ===== src/Counters/Tests.antt =====
-- The counters at concrete runs, and instances of the theorems.
use lace.Prelude.{◌≡◌, refl, [], ◌∷◌, arith, none}
use lace.Counters.{
  Meter, enter_app, exit_app, enter_sync, exit_sync, failed_steal, signalled, finished, time_event,
  restart_clock, ctr_all, sum_count, tasks_per_steal, count_per_ms,
}
use lace.Counters.Slices.{
  slices, Accounted, Log, event, loop_begins, run_events, IsProper, uncounted, run_events-Accounted,
}
use lace.Counters.Report.{elapsed, Reported, report_sums}

abbrev fresh : Meter
fresh = record { ctr = λ _. 0; time = 100; level = 0 }

-- A worker's first task, one that it leaps to meanwhile, a steal, and the end.
abbrev log : Log
log =
    (110, loop_begins)
    ∷ (130, event failed_steal)
    ∷ (140, event enter_app)
    ∷ (160, event enter_sync)
    ∷ (165, event enter_app)
    ∷ (175, event exit_app)
    ∷ (178, event signalled)
    ∷ (180, event exit_sync)
    ∷ (200, event exit_app)
    ∷ (202, event signalled)
    ∷ (210, event failed_steal)
    ∷ (213, event enter_app)
    ∷ (220, event exit_app)
    ∷ (250, event finished)
    ∷ []

abbrev done : Meter
done = run_events fresh log

fresh-Accounted : Accounted 100 fresh
fresh-Accounted = record {
  all = refl;
  steal = omega arith;
  leap = omega arith;
  small = omega arith;
}

log-IsProper : IsProper fresh log
unfolding IsProper time_event restart_clock
log-IsProper = ground (arith)

slices_of_log :
    (done.ctr 12 ≡ 30)
    × (done.ctr 14 ≡ 47)
    × (done.ctr 16 ≡ 13)
    × (done.ctr 13 ≡ 30)
    × (slices done.ctr ≡ 140)
unfolding run_events time_event restart_clock
slices_of_log = (refl, refl, refl, refl, refl)

run_events-Accounted_example : Accounted 110 (run_events fresh log)
unfolding run_events time_event restart_clock IsProper uncounted
run_events-Accounted_example = run_events-Accounted 100 fresh log fresh-Accounted log-IsProper

-- The "total time" of two workers that ran 280 ticks together.
total_time : sum_count (ctr_all (λ _. done) 2) ≡ 306
unfolding run_events time_event restart_clock ctr_all sum_count
total_time = refl

report_sums_example : Reported (ctr_all (λ _. done) 2) (elapsed (λ _. 110) (λ _. done) 2)
unfolding run_events time_event restart_clock elapsed uncounted
report_sums_example =
    report_sums (λ _. 110) (λ _. done) 2
      (λ _ _. run_events-Accounted 100 fresh log fresh-Accounted log-IsProper) (omega arith)

no_steals : tasks_per_steal (λ _. 0) ≡ none
unfolding tasks_per_steal
no_steals = refl

-- A report within a millisecond of the start divides by 0.
report_at_once : count_per_ms 1000 900000 999 ≡ none
unfolding count_per_ms
report_at_once = refl
