-- ===== src/Suspend/Workers.antt =====
-- The steps of a worker keep the invariant.
use lace.Prelude.{
  ℕ, ◌+◌, ◌-◌, ◌<◌, ◌≡◌, Bool, true, arith, total-change, le-total, ltb, if_both, update,
}
use lace.Suspend.{
  Worker, asleep, rejoining, running, leaving, Caller, Suspension, move_worker, worker_at,
}
use lace.Suspend.Invariant.{rejoins, runs, rejoiners, runners, Stands, Settled, Inv}

module _ {n m : ℕ} {s : Suspension} (inv : Inv n m s) (i : ℕ) (here : i < n) where
  -- The worker goes to `w`; the semaphore and the number of running workers change with it, and
  -- what holds of the numbers before holds of those after.
  change-Inv :
      (w : Worker) (sem run : ℕ)
      → run + runs (s.worker i) ≡ s.workers_running + runs w
      → (w ≡ leaving → s.must_suspend ≡ true)
      → ((p : Caller) (back count : ℕ)
          → back + rejoins (s.worker i) ≡ rejoiners s.worker n + rejoins w
          → count + runs (s.worker i) ≡ runners s.worker n + runs w
          → Stands p n s.semaphore (rejoiners s.worker n) (runners s.worker n) s.must_suspend
          → Stands p n sem back count s.must_suspend)
      → ((k back count : ℕ)
          → back + rejoins (s.worker i) ≡ rejoiners s.worker n + rejoins w
          → count + runs (s.worker i) ≡ runners s.worker n + runs w
          → Settled k n s.semaphore (rejoiners s.worker n) (runners s.worker n) s.must_suspend
          → Settled k n sem back count s.must_suspend)
      → Inv n m (record s { semaphore = sem; workers_running = run; worker = update s.worker i w })
  change-Inv w sem run balance leave stand settle = record {
    counted = ground (arith, runs_change, inv.counted, balance);
    leavers = λ j p e. ground (arith, inv.leavers j p, leave);
    one = inv.one;
    charged = inv.charged;
    held = inv.held;
    counts = inv.counts;
    quiet = inv.quiet;
    settled = λ k e. settle k _ _ back_change runs_change (inv.settled k e);
    stands = λ j p. stand (s.caller j) _ _ back_change runs_change (inv.stands j p);
  }
    where
      runs_change :
          runners (update s.worker i w) n + runs (s.worker i) ≡ runners s.worker n + runs w
      runs_change = ground (
        arith,
        total-change (λ j. runs (s.worker j)) (λ j. runs (update s.worker i w j)) n i here
            (λ j ne. ground arith),
      )

      back_change :
          rejoiners (update s.worker i w) n + rejoins (s.worker i)
          ≡ rejoiners s.worker n + rejoins w
      back_change = ground (
        arith,
        total-change (λ j. rejoins (s.worker j)) (λ j. rejoins (update s.worker i w j)) n i here
            (λ j ne. ground arith),
      )

  is_back : s.worker i ≡ rejoining → 0 < rejoiners s.worker n
  is_back at = ground (arith, le-total (λ j. rejoins (s.worker j)) n i here)

  is_running : 0 < runs (s.worker i) → 0 < runners s.worker n
  is_running at = ground (arith, le-total (λ j. runs (s.worker j)) n i here)

  wake-Inv :
      s.worker i ≡ asleep
      → 0 < s.semaphore
      → Inv n m (move_worker i rejoining (record s { semaphore = s.semaphore - 1 }))
  unfolding move_worker
  wake-Inv at more =
      change-Inv rejoining (s.semaphore - 1) s.workers_running (ground arith) (λ e. ground arith)
        (λ p b c eb ec st. ground arith) (λ k b c eb ec st. ground arith)

  rejoin-Inv :
      s.worker i ≡ rejoining
      → Inv n m (move_worker i running (record s { workers_running = s.workers_running + 1 }))
  unfolding move_worker
  rejoin-Inv at =
      change-Inv running s.semaphore (s.workers_running + 1) (ground arith) (λ e. ground arith)
        (λ p b c eb ec st. ground (arith, is_back at))
        (λ k b c eb ec st. ground (arith, is_back at))

  see-Inv : s.worker i ≡ running → s.must_suspend ≡ true → Inv n m (move_worker i leaving s)
  unfolding move_worker
  see-Inv at must =
      change-Inv leaving s.semaphore s.workers_running (ground arith) (λ e. must)
        (λ p b c eb ec st. ground arith) (λ k b c eb ec st. ground arith)

  leave-Inv :
      s.worker i ≡ leaving
      → Inv n m (move_worker i asleep (record s { workers_running = s.workers_running - 1 }))
  unfolding move_worker
  leave-Inv at =
      change-Inv asleep s.semaphore (s.workers_running - 1)
        (ground (arith, inv.counted, is_running (ground arith))) (λ e. ground arith)
        (λ p b c eb ec st. ground (arith, inv.leavers i here at, is_running (ground arith)))
        (λ k b c eb ec st. ground (arith, inv.leavers i here at, is_running (ground arith)))

  pub worker_at-Inv :
      (may_pass : Bool) (w : Worker) → s.worker i ≡ w → Inv n m (worker_at may_pass i w s)
  unfolding worker_at
  worker_at-Inv b asleep at =
      if_both (Inv n m) (ltb 0 s.semaphore) (λ e. wake-Inv at (ground arith)) (λ _. inv)
  worker_at-Inv b rejoining at = if_both (Inv n m) b (λ _. rejoin-Inv at) (λ _. inv)
  worker_at-Inv b running at = if_both (Inv n m) s.must_suspend (λ e. see-Inv at e) (λ _. inv)
  worker_at-Inv b leaving at = leave-Inv at
