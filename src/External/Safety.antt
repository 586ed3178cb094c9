-- ===== src/External/Safety.antt =====
-- What `lace_run_task` and `lace_run_task_exclusive` guarantee, in any interleaving.
use lace.Prelude.{
  ℕ, ◌<◌, ◌≡◌, ◌≢◌, true, false, some, List, Bool-cases, inl, inr, arith, subst, total-pos,
}
use lace.External.{Kind, exclusive, Pc, asleep, draining, queued, Externals, no_tasks, Move}
use lace.External.Invariant.{shares, is_lone, is_owner, is_queued, sharing, Inv, lone_owner}
use lace.External.Changes.{lone_shares}
use lace.External.Run.{AllInRange, run_external, run_external-Inv, no_tasks-Inv}

shares_one : (p : Pc) → 0 < shares p → shares p ≡ 1
shares_one p e = ground arith

module _ (n : ℕ) (l : List Move) (ok : AllInRange n l) where
  abbrev final : Externals
  final = run_external l no_tasks

  reached : Inv n final
  reached = run_external-Inv n l no_tasks ok (no_tasks-Inv n)

  -- In any interleaving of `n` threads and the workers: while a thread offers an exclusive task or
  -- has it run, until it clears the flag, no other thread has a task offered or run, shared or
  -- exclusive.
  pub exclusive_runs_alone :
      (i j : ℕ)
      → i < n
      → j < n
      → i ≢ j
      → is_lone (final.pc i) ≡ true
      → (shares (final.pc j) ≡ 0) × (is_lone (final.pc j) ≡ false)
  exclusive_runs_alone i j p q ne lone = (
    lone_shares reached i p j q lone,
    elim (Bool-cases (is_lone (final.pc j))) [
      | inl e ↦
          absurd (
            ne
              (reached.core.one i j p q (lone_owner (final.pc i) lone) (lone_owner (final.pc j) e)))
      | inr e ↦ e
    ],
  )

  -- No broadcast is missed, in any interleaving of `n` threads and the workers: a thread that waits
  -- for the exclusive flag, with no broadcast since it began to wait, has another thread that set
  -- the flag and has not cleared it.
  pub no_lost_wakeup :
      (i : ℕ) (k : Kind)
      → i < n
      → final.pc i ≡ asleep k false
      → (j : ℕ) × (j < n) × (j ≢ i) × (is_owner (final.pc j) ≡ true)
  no_lost_wakeup i k p at =
      let (j, q, o) = reached.core.owned (reached.sleepers.waits i k p at) in
      (j, q, (λ e. ground arith), o)

  -- In any interleaving of `n` threads and the workers: a thread that waits for the shared tasks to
  -- end, with no broadcast since it began to wait, has another thread with a shared task that is
  -- not yet counted out.
  pub no_lost_drain :
      (i : ℕ)
      → i < n
      → final.pc i ≡ draining false
      → (j : ℕ) × (j < n) × (j ≢ i) × (shares (final.pc j) ≡ 1)
  no_lost_drain i p at =
      let (j, q, o) =
        total-pos (sharing final.pc) n
          (subst (λ c. 0 < c) reached.core.counts (reached.sleepers.drains i p at)) in
      (j, q, (λ e. ground arith), shares_one (final.pc j) o)

  -- In any interleaving of `n` threads and the workers, what stands in `external_task` belongs to
  -- one of the threads, which waits for it.
  pub offered_is_waited_for :
      (i : ℕ) → final.external_task ≡ some i → (i < n) × (is_queued (final.pc i) ≡ true)
  offered_is_waited_for i e = reached.core.offered i e

  -- In any interleaving of `n` threads and the workers, where a thread waits with an exclusive task
  -- that no worker has taken, the task stands in `external_task`: it is not lost.
  pub exclusive_not_lost :
      (i : ℕ) → i < n → final.pc i ≡ queued exclusive → final.external_task ≡ some i
  exclusive_not_lost i p e = reached.core.listed i p e
