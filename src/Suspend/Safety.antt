-- ===== src/Suspend/Safety.antt =====
-- What suspending and resuming guarantee, in any interleaving of workers and callers.
use lace.Prelude.{
  ℕ, zero, suc, ◌+◌, ◌≤◌, ◌<◌, ◌≡◌, ◌≢◌, refl, true, false, arith, total-pos, le-total, List, [],
  ◌∷◌, foldl, ltb, Bool-cases, inl, inr, ◌⊎◌,
}
use lace.Suspend.{
  AwakenCount, intermediate, users, Worker, asleep, rejoining, running, leaving, gathering,
  stopping, Suspension, just_started, Move, worker, caller, step,
}
use lace.Suspend.Invariant.{
  rejoins, runs, uses, in_charge, rejoiners, runners, all_users, Inv, just_started-Inv,
}
use lace.Suspend.Workers.{worker_at-Inv}
use lace.Suspend.Callers.{caller_at-Inv}

-- The workers of a schedule are below `n`, its callers below `m`.
abbrev pub AllInRange : (n m : ℕ) → List Move → Type 0
AllInRange n m [] = Unit
AllInRange n m (worker _ i ∷ l) = (i < n) × AllInRange n m l
AllInRange n m (caller _ j ∷ l) = (j < m) × AllInRange n m l

abbrev pub run_suspension : (n : ℕ) → List Move → Suspension → Suspension
run_suspension n l s = foldl (step n) s l

run_suspension-Inv :
    (n m : ℕ) (l : List Move) (s : Suspension)
    → AllInRange n m l
    → Inv n m s
    → Inv n m (run_suspension n l s)
unfolding step
run_suspension-Inv n m [] s ok inv = inv
run_suspension-Inv n m (worker b i ∷ l) s ok inv =
    run_suspension-Inv n m l _ ok.1 (worker_at-Inv inv i ok.0 b (s.worker i) refl)
run_suspension-Inv n m (caller b j ∷ l) s ok inv =
    run_suspension-Inv n m l _ ok.1 (caller_at-Inv inv j ok.0 b (s.caller j) refl)

-- While somebody uses the workers.
module _ {n m : ℕ} {s : Suspension} (inv : Inv n m s) where
  pub awake :
      (j : ℕ)
      → j < m
      → uses (s.caller j) ≡ 1
      → (s.must_suspend ≡ false)
        × ((i : ℕ) → i < n → s.worker i ≢ leaving)
        × (s.semaphore + rejoiners s.worker n + runners s.worker n ≡ n)
  awake j p e = by_count s.awaken_count refl
    where
      user : 1 ≤ all_users s.caller m
      user = ground (arith, le-total (λ i. uses (s.caller i)) m j p)

      by_count :
          (c : AwakenCount)
          → s.awaken_count ≡ c
          → (s.must_suspend ≡ false)
            × ((i : ℕ) → i < n → s.worker i ≢ leaving)
            × (s.semaphore + rejoiners s.worker n + runners s.worker n ≡ n)
      by_count intermediate at = absurd (ground (arith, inv.quiet at, user))
      by_count (users zero) at = absurd (ground (arith, inv.counts 0 at, user))
      by_count (users (suc k)) at = (
        (inv.settled (suc k) at).1,
        (λ i q l. ground (arith, inv.leavers i q l, (inv.settled (suc k) at).1)),
        (inv.settled (suc k) at).0,
      )

module _ (n m : ℕ) (l : List Move) (ok : AllInRange n m l) where
  abbrev final : Suspension
  final = run_suspension n l just_started

  reached : Inv n m final
  reached = run_suspension-Inv n m l just_started ok (just_started-Inv n m)

  -- In any interleaving of `n` workers and `m` callers: while some caller is between its
  -- `lace_resume` and its `lace_suspend`, or has not been counted out by the latter, `must_suspend`
  -- is not set, no worker is about to stop, and every worker is running, on its way back, or has a
  -- post of the semaphore to take.
  pub awake_while_used :
      (j i : ℕ)
      → j < m
      → i < n
      → uses (final.caller j) ≡ 1
      → (final.must_suspend ≡ false)
        × (final.worker i ≢ leaving)
        × (final.semaphore + rejoiners final.worker n + runners final.worker n ≡ n)
  awake_while_used j i p q e =
      let (stays, none_leaves, all) = awake reached j p e in (stays, none_leaves i q, all)

  -- In any interleaving of `n` workers and `m` callers, where `lace_awaken_count` is a number, it is
  -- the number of callers that use the workers.
  pub awaken_count_exact : (k : ℕ) → final.awaken_count ≡ users k → all_users final.caller m ≡ k
  awaken_count_exact k e = reached.counts k e

  -- In any interleaving of `n` workers and `m` callers, at most one caller wakes the workers or sends
  -- them to sleep, it holds `lace_awaken_count` in its intermediate state, and nobody uses the
  -- workers meanwhile.
  pub one_in_charge :
      (i j : ℕ)
      → i < m
      → j < m
      → in_charge (final.caller i) ≡ true
      → in_charge (final.caller j) ≡ true
      → (i ≡ j) × (final.awaken_count ≡ intermediate) × (all_users final.caller m ≡ 0)
  one_in_charge i j p q e f =
      (reached.one i j p q e f, reached.charged i p e, reached.quiet (reached.charged i p e))

  -- In any interleaving of `n` workers and `m` callers, when nobody uses the workers all of them
  -- wait for the semaphore, which has no posts, so that the next `lace_resume` posts once for each.
  pub all_asleep_at_zero :
      (i : ℕ)
      → i < n
      → final.awaken_count ≡ users 0
      → (final.semaphore ≡ 0) × (final.must_suspend ≡ false) × (final.worker i ≡ asleep)
  all_asleep_at_zero i p e = (
    ground (arith, reached.settled 0 e),
    ground (arith, reached.settled 0 e),
    still (final.worker i)
        (ground (arith, reached.settled 0 e, le-total (λ i. runs (final.worker i)) n i p))
        (ground (arith, reached.settled 0 e, le-total (λ i. rejoins (final.worker i)) n i p)),
  )
    where
      still : (w : Worker) → runs w ≡ 0 → rejoins w ≡ 0 → w ≡ asleep
      still w a b = ground arith

  -- In any interleaving of `n` workers and `m` callers, where `lace_suspend` waits for all workers
  -- to run and one does not, there is a post of the semaphore to take or a worker on its way back.
  pub gathering_waits_for_someone :
      (j : ℕ)
      → j < m
      → final.caller j ≡ gathering
      → final.workers_running < n
      → (0 < final.semaphore) ⊎ ((i : ℕ) × (i < n) × (final.worker i ≡ rejoining))
  gathering_waits_for_someone j p at few = elim (Bool-cases (ltb 0 final.semaphore)) [
    | inl more ↦ inl (ground arith)
    | inr no_post ↦
        let (i, q, back) =
          total-pos (λ i. rejoins (final.worker i)) n (ground (arith, gathers, reached.counted)) in
        inr (i, q, is_back (final.worker i) back)
  ]
    where
      gathers : final.semaphore + rejoiners final.worker n + runners final.worker n ≡ n
      gathers = ground (arith, reached.stands j p)

      is_back : (w : Worker) → 0 < rejoins w → w ≡ rejoining
      is_back w e = ground arith

  -- In any interleaving of `n` workers and `m` callers, where `lace_suspend` waits for all workers
  -- to stop and one still runs, `must_suspend` is set, and some worker is about to stop or in its
  -- loop, before it reads the flag.
  pub stopping_waits_for_someone :
      (j : ℕ)
      → j < m
      → final.caller j ≡ stopping
      → 0 < final.workers_running
      → (final.must_suspend ≡ true)
        × ((i : ℕ) × (i < n) × ((final.worker i ≡ running) ⊎ (final.worker i ≡ leaving)))
  stopping_waits_for_someone j p at more =
      let (i, q, on) = total-pos (λ i. runs (final.worker i)) n (ground (arith, reached.counted)) in
      (ground (arith, reached.stands j p), (i, q, is_on (final.worker i) on))
    where
      is_on : (w : Worker) → 0 < runs w → (w ≡ running) ⊎ (w ≡ leaving)
      is_on w e = ground arith
