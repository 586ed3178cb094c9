-- ===== src/RunTask/Apart.antt =====
-- A caller's and a worker's access in Suspend leave the other ones where they are.
use lace.Prelude.{ℕ, zero, suc, ◌≡◌, ◌≢◌, refl, Bool, arith}
use lace.Suspend.{
  Worker, Caller, resuming_from, posting, Suspension, worker_at, caller_at, move_caller,
  move_worker, read_to_resume, read_to_suspend,
}

-- A caller moves no worker and no other caller.
module _ (luck : Bool) (n j : ℕ) (s : Suspension) where
  pub caller-workers : (c : Caller) → (caller_at luck n j c s).worker ≡ s.worker
  unfolding caller_at move_caller read_to_resume read_to_suspend
  caller-workers (resuming_from zero) = ground arith
  caller-workers (resuming_from (suc k)) = ground arith
  caller-workers (posting zero) = refl
  caller-workers (posting (suc k)) = refl
  caller-workers c = ground arith

  pub caller-others : (c : Caller) (k : ℕ) → j ≢ k → (caller_at luck n j c s).caller k ≡ s.caller k
  unfolding caller_at move_caller read_to_resume read_to_suspend
  caller-others (resuming_from zero) k ne = ground arith
  caller-others (resuming_from (suc i)) k ne = ground arith
  caller-others (posting zero) k ne = ground arith
  caller-others (posting (suc i)) k ne = ground arith
  caller-others c k ne = ground arith

module _ (may_pass : Bool) (i : ℕ) (s : Suspension) where
  pub worker-callers : (w : Worker) → (worker_at may_pass i w s).caller ≡ s.caller
  unfolding worker_at move_worker
  worker-callers w = ground arith

  pub worker-others :
      (w : Worker) (k : ℕ) → i ≢ k → (worker_at may_pass i w s).worker k ≡ s.worker k
  unfolding worker_at move_worker
  worker-others w k ne = ground arith
