-- ===== src/RunTask/Invariant.antt =====
-- The invariant of external tasks and suspension together: whose task is not at rest uses the workers.
use lace.Prelude.{
  ℕ, ◌<◌, ◌≡◌, ◌≢◌, refl, Option, none, some, arith, ◌==◌, if◌then◌else◌, total, total-const,
}
use lace.External.Run.{no_tasks-Inv}
use lace.External.Invariant.{Inv as ExternalInv}
use lace.External.Value.Stages.{Stage, at_rest, on_worker, stage}
use lace.Suspend.{Caller, active, running}
use lace.Suspend.Invariant.{Inv as SuspendInv, just_started-Inv}
use lace.RunTask.{Phase, in_task, Service, no_service}

abbrev pub Fits : Phase → Caller → Stage → Type 0
Fits in_task c st = c ≡ active
Fits _ c st = st ≡ at_rest

abbrev pub boards : ℕ → Option ℕ → ℕ
boards i none = 0
boards i (some k) = if k == i then 1 else 0

abbrev pub aboard : ℕ → (ℕ → Option ℕ) → ℕ → ℕ
aboard i on j = boards i (on j)

-- `n` workers and `m` threads.
pub record Inv (n m : ℕ) (s : Service) : Type 0 where
  pub susp : SuspendInv n m s.susp
  pub ext : ExternalInv m s.ext
  pub fits : (j : ℕ) → j < m → Fits (s.phase j) (s.susp.caller j) (stage (s.ext.pc j))
  pub executes : (j i : ℕ) → j < m → s.on j ≡ some i → (i < n) × (stage (s.ext.pc j) ≡ on_worker)
  pub loads : (i : ℕ) → s.load i ≡ total (aboard i s.on) m
  pub loaded : (i : ℕ) → i < n → 0 < s.load i → s.susp.worker i ≡ running

pub no_service-Inv : (n m : ℕ) → Inv n m no_service
no_service-Inv n m = record {
  susp = just_started-Inv n m;
  ext = no_tasks-Inv m;
  fits = λ j p. refl;
  executes = λ j i p e. absurd (ground (arith, e));
  loads = λ i. ground (arith, total-const (aboard i (λ _. none)) 0 m (λ j p. refl));
  loaded = λ i p e. absurd (omega (arith, e));
}

module _ {n m : ℕ} {s : Service} (inv : Inv n m s) where
  pub in_use : (j : ℕ) → j < m → stage (s.ext.pc j) ≢ at_rest → s.susp.caller j ≡ active
  in_use j p busy = by_phase (s.phase j) (inv.fits j p)
    where
      by_phase :
          (ph : Phase) → Fits ph (s.susp.caller j) (stage (s.ext.pc j)) → s.susp.caller j ≡ active
      by_phase in_task f = f
      by_phase _ f = absurd (busy f)
