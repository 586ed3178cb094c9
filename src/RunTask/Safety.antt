-- ===== src/RunTask/Safety.antt =====
-- While an external task waits or is executed, the workers are awake.
use lace.Prelude.{ℕ, ◌+◌, ◌<◌, ◌≡◌, ◌≢◌, refl, ap, false, some, List, [], ◌∷◌, arith, le-total}
use lace.External.{Pc, idle}
use lace.External.Value.Stages.{at_rest, stage}
use lace.Suspend.{running, leaving}
use lace.Suspend.Invariant.{rejoiners, runners, uses}
use lace.Suspend.Safety.{awake}
use lace.RunTask.{
  Service, no_service, ServiceMove, calls, thread, loops, takes, ends, serve, run_service,
}
use lace.RunTask.Invariant.{aboard, Inv, no_service-Inv, in_use}
use lace.RunTask.Moves.{call-Inv, phase-Inv}
use lace.RunTask.Workers.{loop-Inv, take-Inv, end-Inv}

-- The workers of a move are below `n`, its threads below `m`.
abbrev pub InRange : (n m : ℕ) → ServiceMove → Type 0
InRange n m (calls k j) = j < m
InRange n m (thread luck j) = j < m
InRange n m (loops b i) = i < n
InRange n m (takes i) = i < n
InRange n m (ends j) = j < m

abbrev pub AllInRange : (n m : ℕ) → List ServiceMove → Type 0
AllInRange n m [] = Unit
AllInRange n m (x ∷ l) = InRange n m x × AllInRange n m l

serve-Inv :
    (n m : ℕ) (s : Service) (x : ServiceMove) → InRange n m x → Inv n m s → Inv n m (serve n s x)
unfolding serve
serve-Inv n m s (calls k j) ok inv = call-Inv inv j ok k (s.phase j) (s.susp.caller j) refl refl
serve-Inv n m s (thread luck j) ok inv = phase-Inv inv j ok luck (s.phase j) refl
serve-Inv n m s (loops b i) ok inv = loop-Inv inv b i ok
serve-Inv n m s (takes i) ok inv = take-Inv inv i (s.susp.worker i) s.ext.external_task ok refl refl
serve-Inv n m s (ends j) ok inv = end-Inv inv j (s.on j) ok refl

run_service-Inv :
    (n m : ℕ) (l : List ServiceMove) (s : Service)
    → AllInRange n m l
    → Inv n m s
    → Inv n m (run_service n l s)
run_service-Inv n m [] s ok inv = inv
run_service-Inv n m (x ∷ l) s ok inv =
    run_service-Inv n m l (serve n s x) ok.1 (serve-Inv n m s x ok.0 inv)

stage-busy : (p : Pc) → p ≢ idle → stage p ≢ at_rest
stage-busy p ne e = ground (arith, ne, e)

module _ (n m : ℕ) (l : List ServiceMove) (ok : AllInRange n m l) where
  abbrev final : Service
  final = run_service n l no_service

  reached : Inv n m final
  reached = run_service-Inv n m l no_service ok (no_service-Inv n m)

  -- In any interleaving of `n` workers and `m` threads that call `lace_run_task`,
  -- `lace_run_task_exclusive`, `lace_resume` and `lace_suspend`: from where a thread goes to offer its
  -- task until it has released it, `must_suspend` is not set, no worker is about to stop, and every
  -- worker is running, on its way back, or has a post of the semaphore to take; and the worker that
  -- executes the task is running.
  pub task_keeps_workers :
      (j : ℕ)
      → j < m
      → final.ext.pc j ≢ idle
      → (final.susp.must_suspend ≡ false)
        × ((i : ℕ) → i < n → final.susp.worker i ≢ leaving)
        × (final.susp.semaphore + rejoiners final.susp.worker n + runners final.susp.worker n ≡ n)
        × ((i : ℕ) → final.on j ≡ some i → (i < n) × (final.susp.worker i ≡ running))
  task_keeps_workers j p busy =
      let (stays, none_leaves, all) =
        awake reached.susp j p (ap uses (in_use reached j p (stage-busy _ busy))) in
      (
        stays,
        none_leaves,
        all,
        λ i e.
            let below = (reached.executes j i p e).0 in
            (
              below,
              reached.loaded i below
                  (ground (arith, reached.loads i, le-total (aboard i final.on) m j p, e)),
            ),
      )
