-- ===== src/RunTask/Moves.antt =====
-- Each move keeps the invariant of external tasks and suspension together.
use lace.Prelude.{ℕ, ◌<◌, ◌≡◌, ◌≢◌, refl, sym, subst, ap, ◌∙◌, Bool, true, some, arith, update}
use native.Mathlib.Decide.{ℕ_discrete}
use lace.External.{Kind, Pc, idle, Externals, start, goto, thread_at, Move, step}
use lace.External.Run.{step-Inv}
use lace.External.Invariant.{Inv as ExternalInv}
use lace.External.Value.Stages.{Stage, at_rest, on_worker, stage, stage-thread}
use lace.Suspend.{Caller, out, active, caller_at}
use lace.Suspend.Callers.{caller_at-Inv}
use lace.RunTask.{
  Phase, elsewhere, waking, in_task, going, Service, call_run, wake_at, task_at, go_at, phase_at,
}
use lace.RunTask.Apart.{caller-workers, caller-others}
use lace.RunTask.Invariant.{Fits, Inv}

start-others :
    (e : Externals) (k : Kind) (j : ℕ) (p : Pc) (i : ℕ)
    → j ≢ i
    → stage ((start k j p e).pc i) ≡ stage (e.pc i)
unfolding start goto
start-others e k j p i ne = ground arith

module _ {n m : ℕ} {s : Service} (inv : Inv n m s) (j : ℕ) (here : j < m) where
  -- An access of `lace_resume` or `lace_suspend`, and where the thread is after it.
  suspends :
      (luck : Bool) (c : Caller)
      → s.susp.caller j ≡ c
      → (ph : ℕ → Phase) → ((k : ℕ) → j ≢ k → ph k ≡ s.phase k)
      → Fits (ph j) ((caller_at luck n j c s.susp).caller j) (stage (s.ext.pc j))
      → Inv n m (record s { susp = caller_at luck n j c s.susp; phase = ph })
  suspends luck c at ph same ok = record {
    susp = caller_at-Inv inv.susp j here luck c at;
    ext = inv.ext;
    fits = λ k p. elim (ℕ_discrete j k) [
      | yes e ↦
          subst (λ i. Fits (ph i) ((caller_at luck n j c s.susp).caller i) (stage (s.ext.pc i))) e
            ok
      | no other ↦
          subst (λ q. Fits q ((caller_at luck n j c s.susp).caller k) (stage (s.ext.pc k)))
            (sym (same k other))
            (subst (λ x. Fits (s.phase k) x (stage (s.ext.pc k)))
              (sym (caller-others luck n j s.susp c k other)) (inv.fits k p))
    ];
    executes = inv.executes;
    loads = inv.loads;
    loaded = λ i p e. ap (λ w. w i) (caller-workers luck n j s.susp c) ∙ inv.loaded i p e;
  }

  in_task-active : s.phase j ≡ in_task → s.susp.caller j ≡ active
  in_task-active ph =
      subst (λ q. Fits q (s.susp.caller j) (stage (s.ext.pc j))) ph (inv.fits j here)

  -- A step of the external tasks that changes the stage of thread `j` at most.
  goes_on :
      (e' : Externals)
      → (ph : ℕ → Phase) → ((k : ℕ) → j ≢ k → ph k ≡ s.phase k)
      → ExternalInv m e'
      → ((k : ℕ) → j ≢ k → stage (e'.pc k) ≡ stage (s.ext.pc k))
      → Fits (ph j) (s.susp.caller j) (stage (e'.pc j))
      → ((i : ℕ) → s.on j ≡ some i → stage (e'.pc j) ≡ on_worker)
      → Inv n m (record s { ext = e'; phase = ph })
  goes_on e' ph same ext others ok stays = record {
    susp = inv.susp;
    ext = ext;
    fits = λ k p. elim (ℕ_discrete j k) [
      | yes e ↦ subst (λ i. Fits (ph i) (s.susp.caller i) (stage (e'.pc i))) e ok
      | no other ↦
          subst (λ q. Fits q (s.susp.caller k) (stage (e'.pc k))) (sym (same k other))
            (subst (λ st. Fits (s.phase k) (s.susp.caller k) st) (sym (others k other))
              (inv.fits k p))
    ];
    executes = λ k i p e. (
      (inv.executes k i p e).0,
      elim (ℕ_discrete j k) [
        | yes at ↦ subst (λ x. stage (e'.pc x) ≡ on_worker) at (stays i (ap s.on at ∙ e))
        | no other ↦ others k other ∙ (inv.executes k i p e).1
      ],
    );
    loads = inv.loads;
    loaded = inv.loaded;
  }

  -- An access of the task itself.
  works :
      (luck : Bool) (p : Pc)
      → s.ext.pc j ≡ p
      → s.phase j ≡ in_task
      → Inv n m (record s { ext = thread_at luck j p s.ext })
  works luck p at ph =
      goes_on (thread_at luck j p s.ext) s.phase (λ k ne. refl)
        (subst (λ q. ExternalInv m (thread_at luck j q s.ext)) at
          (unfold step in step-Inv m s.ext (Move.thread luck j) here inv.ext))
        (λ k ne. ground (arith, stage-thread s.ext j k luck p at))
        (subst (λ q. Fits q (s.susp.caller j) (stage ((thread_at luck j p s.ext).pc j))) (sym ph)
          (in_task-active ph))
        (λ i e.
          ground
            (arith, stage-thread s.ext j j luck p at, (inv.executes j i here e).1, ap stage at))

  -- `lace_resume` has returned.
  begins :
      (k : Kind)
      → s.susp.caller j ≡ active
      → stage (s.ext.pc j) ≡ at_rest
      → Inv n m (record s { ext = start k j (s.ext.pc j) s.ext; phase = update s.phase j in_task })
  begins k on rest =
      goes_on (start k j (s.ext.pc j) s.ext) (update s.phase j in_task) (λ i ne. ground arith)
        (unfold step in step-Inv m s.ext (Move.call k j) here inv.ext)
        (λ i ne. start-others s.ext k j (s.ext.pc j) i ne)
        (subst (λ q. Fits q (s.susp.caller j) (stage ((start k j (s.ext.pc j) s.ext).pc j)))
          (sym now) on)
        (λ i e. absurd (ground (arith, (inv.executes j i here e).1)))
    where
      now : update s.phase j in_task j ≡ in_task
      now = ground arith

  rests : (ph : Phase) → s.phase j ≡ ph → ph ≢ in_task → stage (s.ext.pc j) ≡ at_rest
  rests in_task at ne = absurd (ne refl)
  rests elsewhere at ne =
      subst (λ q. Fits q (s.susp.caller j) (stage (s.ext.pc j))) at (inv.fits j here)
  rests (waking k) at ne =
      subst (λ q. Fits q (s.susp.caller j) (stage (s.ext.pc j))) at (inv.fits j here)
  rests going at ne =
      subst (λ q. Fits q (s.susp.caller j) (stage (s.ext.pc j))) at (inv.fits j here)

  Fits-rest : (ph : Phase) (c : Caller) (st : Stage) → ph ≢ in_task → st ≡ at_rest → Fits ph c st
  Fits-rest in_task c st ne e = absurd (ne refl)
  Fits-rest elsewhere c st ne e = e
  Fits-rest (waking k) c st ne e = e
  Fits-rest going c st ne e = e

  -- An access of `lace_resume` or `lace_suspend` outside of the task.
  apart :
      (luck : Bool) (c : Caller)
      → s.susp.caller j ≡ c
      → s.phase j ≢ in_task
      → Inv n m (record s { susp = caller_at luck n j c s.susp })
  apart luck c at ne =
      suspends luck c at s.phase (λ k o. refl)
        (Fits-rest (s.phase j) _ _ ne (rests (s.phase j) refl ne))

  wake-Inv :
      (luck : Bool) (k : Kind) (c : Caller)
      → s.susp.caller j ≡ c
      → s.phase j ≡ waking k
      → Inv n m (wake_at luck n k j c s)
  unfolding wake_at
  wake-Inv luck k active at ph = begins k at (rests (s.phase j) refl (λ e. ground arith))
  wake-Inv luck k c at ph = apart luck c at (λ e. ground arith)

  task-Inv :
      (luck : Bool) (p : Pc) → s.ext.pc j ≡ p → s.phase j ≡ in_task → Inv n m (task_at luck n j p s)
  unfolding task_at
  task-Inv luck idle at ph =
      suspends luck (s.susp.caller j) refl (update s.phase j going) (λ k ne. ground arith)
        (Fits-rest (update s.phase j going j) _ _ (λ e. ground arith) (ap stage at))
  task-Inv luck p at ph = works luck p at ph

  go-Inv :
      (luck : Bool) (c : Caller)
      → s.susp.caller j ≡ c
      → s.phase j ≡ going
      → Inv n m (go_at luck n j c s)
  unfolding go_at
  go-Inv luck out at ph =
      goes_on s.ext (update s.phase j elsewhere) (λ k ne. ground arith) inv.ext (λ k ne. refl)
        (Fits-rest (update s.phase j elsewhere j) _ _ (λ e. ground arith)
          (rests (s.phase j) refl (λ e. ground arith)))
        (λ i e. (inv.executes j i here e).1)
  go-Inv luck c at ph = apart luck c at (λ e. ground arith)

  pub phase-Inv : (luck : Bool) (ph : Phase) → s.phase j ≡ ph → Inv n m (phase_at luck n j ph s)
  unfolding phase_at
  phase-Inv luck elsewhere at = apart luck (s.susp.caller j) refl (λ e. ground arith)
  phase-Inv luck (waking k) at = wake-Inv luck k (s.susp.caller j) refl at
  phase-Inv luck in_task at = task-Inv luck (s.ext.pc j) refl at
  phase-Inv luck going at = go-Inv luck (s.susp.caller j) refl at

  pub call-Inv :
      (k : Kind) (ph : Phase) (c : Caller)
      → s.phase j ≡ ph
      → s.susp.caller j ≡ c
      → Inv n m (call_run n k j ph c s)
  unfolding call_run
  call-Inv k elsewhere out at is =
      suspends true out is (update s.phase j (waking k)) (λ i ne. ground arith)
        (Fits-rest (update s.phase j (waking k) j) _ _ (λ e. ground arith)
          (rests (s.phase j) refl (λ e. ground arith)))
  call-Inv k ph c at is = inv
