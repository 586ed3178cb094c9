-- ===== src/RunTask/Workers.antt =====
-- The workers' moves keep the invariant: their loop, and the tasks that they take and end.
use lace.Prelude.{
  ℕ, ◌<◌, ◌≡◌, ◌≢◌, refl, sym, subst, ap, ◌∙◌, Bool, true, Option, none, some, arith, ◌==◌, inl,
  inr, ◌⊎◌, update, total-change, if_both,
}
use native.Mathlib.Decide.{ℕ_discrete}
use lace.External.{Pc, Externals, goto, finish, take, steal_external, Move, step}
use lace.External.Run.{step-Inv}
use lace.External.Invariant.{is_queued}
use lace.External.Value.Stages.{Stage, at_rest, in_call, on_worker, stage, stage-steal}
use lace.Suspend.{Worker, running, Caller}
use lace.Suspend.Workers.{worker_at-Inv}
use lace.RunTask.{Phase, elsewhere, waking, in_task, going, Service, loop_at, take_at, end_at}
use lace.RunTask.Apart.{worker-callers, worker-others}
use lace.RunTask.Invariant.{Fits, boards, aboard, Inv}

stage-queued : (p : Pc) → is_queued p ≡ true → stage p ≡ in_call
stage-queued p e = ground arith

steal-taken :
    (s : Externals) (j : ℕ)
    → s.external_task ≡ some j
    → is_queued (s.pc j) ≡ true
    → stage ((steal_external s).pc j) ≡ on_worker
unfolding steal_external
steal-taken s j at e =
    subst
      (λ t.
        stage ((elim t as (λ _. Externals) [ none ↦ s | some i ↦ take i (s.pc i) s ]).pc j)
        ≡ on_worker)
      (sym at) (by_pc (s.pc j) e)
  where
    by_pc : (p : Pc) → is_queued p ≡ true → stage ((take j p s).pc j) ≡ on_worker
    by_pc p q = unfold take in ground arith

finish-others :
    (s : Externals) (j : ℕ) (p : Pc) (k : ℕ) → j ≢ k → stage ((finish j p s).pc k) ≡ stage (s.pc k)
unfolding finish goto
finish-others s j p k ne = ground arith

-- A thread whose stage changes only from `in_call` to `on_worker`, or from that one on.
Fits-change :
    (ph : Phase) (c : Caller) (old new : Stage)
    → (new ≡ old) ⊎ (old ≢ at_rest)
    → Fits ph c old
    → Fits ph c new
Fits-change in_task c old new e f = f
Fits-change elsewhere c old new e f = ground (arith, e, f)
Fits-change (waking k) c old new e f = ground (arith, e, f)
Fits-change going c old new e f = ground (arith, e, f)

module _ {n m : ℕ} {s : Service} (inv : Inv n m s) where
  pub loop-Inv : (may_pass : Bool) (i : ℕ) → i < n → Inv n m (loop_at may_pass i s)
  unfolding loop_at
  loop-Inv may_pass i here =
      if_both (Inv n m) (s.load i == 0)
        (λ free. record {
          susp = worker_at-Inv inv.susp i here may_pass (s.susp.worker i) refl;
          ext = inv.ext;
          fits = λ j p.
              subst (λ c. Fits (s.phase j) (c j) (stage (s.ext.pc j)))
                (sym (worker-callers may_pass i s.susp (s.susp.worker i))) (inv.fits j p);
          executes = inv.executes;
          loads = inv.loads;
          loaded = λ k p e. elim (ℕ_discrete i k) [
            | yes same ↦ absurd (ground (arith, free, e, ap s.load same))
            | no other ↦
                worker-others may_pass i s.susp (s.susp.worker i) k other ∙ inv.loaded k p e
          ];
        })
        (λ _. inv)

  taking-Inv :
      (i j : ℕ)
      → i < n
      → s.susp.worker i ≡ running
      → s.ext.external_task ≡ some j
      → Inv n m (take_at i running (some j) s)
  unfolding take_at
  taking-Inv i j here runs at = record {
    susp = inv.susp;
    ext = unfold step in step-Inv m s.ext Move.worker_takes tt inv.ext;
    fits = λ k p. Fits-change (s.phase k) (s.susp.caller k) _ _ (change k) (inv.fits k p);
    executes = λ k i' p e. elim (ℕ_discrete j k) [
      | yes same ↦ (
        ground (arith, e, here),
        subst (λ x. stage ((steal_external s.ext).pc x) ≡ on_worker) same
            (steal-taken s.ext j at offered.1),
      )
      | no other ↦
          let (below, busy) = inv.executes k i' p (ground (arith, e)) in
          (below, ground (arith, busy, stage-steal s.ext k))
    ];
    loads = λ k. ground (
      arith,
      inv.loads k,
      ap (boards k) (nobody (s.on j) refl),
      total-change (aboard k s.on) (aboard k (update s.on j (some i))) m j offered.0
          (λ x ne. ground arith),
    );
    loaded = λ k p e. elim (ℕ_discrete i k) [
      | yes same ↦ ap s.susp.worker (sym same) ∙ runs
      | no other ↦ inv.loaded k p (ground arith)
    ];
  }
    where
      offered : (j < m) × (is_queued (s.ext.pc j) ≡ true)
      offered = inv.ext.core.offered j at

      nobody : (o : Option ℕ) → s.on j ≡ o → o ≡ none
      nobody none e = refl
      nobody (some x) e =
          absurd
            (ground (arith, stage-queued (s.ext.pc j) offered.1, (inv.executes j x offered.0 e).1))

      change :
          (k : ℕ)
          → (stage ((steal_external s.ext).pc k) ≡ stage (s.ext.pc k))
            ⊎ (stage (s.ext.pc k) ≢ at_rest)
      change k = elim (stage-steal s.ext k) [
        | inl same ↦ inl same
        | inr taking ↦ inr (λ e. ground (arith, taking.0, e))
      ]

  pub take-Inv :
      (i : ℕ) (w : Worker) (t : Option ℕ)
      → i < n
      → s.susp.worker i ≡ w
      → s.ext.external_task ≡ t
      → Inv n m (take_at i w t s)
  unfolding take_at
  take-Inv i running (some j) here runs at = unfold take_at in taking-Inv i j here runs at
  take-Inv i w t here runs at = inv

  ending-Inv : (j i : ℕ) → j < m → s.on j ≡ some i → Inv n m (end_at j (some i) s)
  unfolding end_at
  ending-Inv j i here at = record {
    susp = inv.susp;
    ext = unfold step in step-Inv m s.ext (Move.worker_finishes j) here inv.ext;
    fits = λ k p. Fits-change (s.phase k) (s.susp.caller k) _ _ (change k) (inv.fits k p);
    executes = λ k i' p e. elim (ℕ_discrete j k) [
      | yes same ↦ absurd (ground (arith, e, same))
      | no other ↦
          let (below, busy) = inv.executes k i' p (ground (arith, e)) in
          (below, finish-others s.ext j (s.ext.pc j) k other ∙ busy)
    ];
    loads = λ k. ground (
      arith,
      inv.loads k,
      ap (boards k) at,
      total-change (aboard k s.on) (aboard k (update s.on j none)) m j here (λ x ne. ground arith),
    );
    loaded = λ k p e. inv.loaded k p (ground (arith, e));
  }
    where
      change :
          (k : ℕ)
          → (stage ((finish j (s.ext.pc j) s.ext).pc k) ≡ stage (s.ext.pc k))
            ⊎ (stage (s.ext.pc k) ≢ at_rest)
      change k = elim (ℕ_discrete j k) [
        | yes same ↦ inr (λ e.
            ground (arith, (inv.executes j i here at).1, ap (λ x. stage (s.ext.pc x)) same, e))
        | no other ↦ inl (finish-others s.ext j (s.ext.pc j) k other)
      ]

  pub end-Inv : (j : ℕ) (o : Option ℕ) → j < m → s.on j ≡ o → Inv n m (end_at j o s)
  unfolding end_at
  end-Inv j (some i) here at = unfold end_at in ending-Inv j i here at
  end-Inv j none here at = inv
