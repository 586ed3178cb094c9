-- ===== src/External/Value/Stages.antt =====
-- Whether a thread is in a call of `lace_run_task`, and whether its task has been run.
use native.Mathlib.Decide.{ℕ_discrete}
use lace.Prelude.{
  sym, subst, ◌⊎◌, inl, inr, ℕ, ◌≡◌, refl, ap, Bool, true, false, Option, none, some, ◌==◌,
  if◌then◌else◌, arith, update,
}
use lace.External.Invariant.{is_queued}
use lace.External.{
  Kind, shared, exclusive, Pc, idle, entering, asleep, draining, posting, queued, taken, finished,
  Externals, wake, goto, drain, claim, post, release, thread_at, take, steal_external,
}

pub data Stage : Type 0 where
  at_rest in_call on_worker served : Stage

abbrev pub stage : Pc → Stage
stage idle = at_rest
stage (taken k) = on_worker
stage (finished k) = served
stage _ = in_call

abbrev pub is_served : Pc → Bool
is_served (finished k) = true
is_served _ = false

stage-wake : (p : Pc) → stage (wake p) ≡ stage p
stage-wake (asleep k w) = refl
stage-wake (draining w) = refl
stage-wake _ = refl

module _ (s : Externals) (i j : ℕ) where
  -- A thread that goes from one point to another of the same stage.
  stage-goto : (p : Pc) → stage (s.pc i) ≡ stage p → stage (update s.pc i p j) ≡ stage (s.pc j)
  stage-goto p e = ground (arith, ap (λ k. s.pc k))

  stage-drain : stage (s.pc i) ≡ in_call → stage ((drain i s).pc j) ≡ stage (s.pc j)
  unfolding drain goto
  stage-drain e =
      ground (arith, stage-goto (draining false) e, stage-goto (posting exclusive none) e)

  stage-post :
      (luck : Bool) (k : Kind) (exp : Option ℕ)
      → stage (s.pc i) ≡ in_call
      → stage ((post luck k exp i s).pc j) ≡ stage (s.pc j)
  unfolding post goto
  stage-post luck k exp e =
      ground (arith, stage-goto (queued k) e, stage-goto (posting k s.external_task) e)

  stage-release :
      (k : Kind) → stage ((release k i s).pc j) ≡ (if i == j then at_rest else stage (s.pc j))
  unfolding release
  stage-release shared = ground (arith, stage-wake (update s.pc i idle j))
  stage-release exclusive = ground (arith, stage-wake (update s.pc i idle j))

module _ (s : Externals) (i j : ℕ) where
  stage-claim : (k : Kind) → stage (s.pc i) ≡ in_call → stage ((claim k i s).pc j) ≡ stage (s.pc j)
  unfolding claim goto
  stage-claim shared e =
      ground
        (arith, stage-goto s i j (asleep shared false) e, stage-goto s i j (posting shared none) e)
  stage-claim exclusive e = ground (
    arith,
    stage-goto s i j (asleep exclusive false) e,
    stage-drain (record s { is_exclusive = true }) i j e,
  )

  -- What the next step of thread `i` does to the stages: it leaves `lace_run_task` after its task
  -- was run.
  pub stage-thread :
      (luck : Bool) (p : Pc)
      → s.pc i ≡ p
      → stage ((thread_at luck i p s).pc j)
        ≡ (if i == j then (if is_served p then at_rest else stage (s.pc j)) else stage (s.pc j))
  unfolding thread_at
  stage-thread luck idle at = ground arith
  stage-thread luck (entering k) at = ground (arith, stage-claim k (ap stage at))
  stage-thread luck (asleep k true) at = ground (arith, stage-claim k (ap stage at))
  stage-thread luck (asleep k false) at = ground (arith, stage-claim k (ap stage at))
  stage-thread luck (draining true) at = ground (arith, stage-drain s i j (ap stage at))
  stage-thread luck (draining false) at = ground (arith, stage-drain s i j (ap stage at))
  stage-thread luck (posting k exp) at = ground (arith, stage-post s i j luck k exp (ap stage at))
  stage-thread luck (queued k) at = ground arith
  stage-thread luck (taken k) at = ground arith
  stage-thread luck (finished k) at = stage-release s i j k

  -- A task that stands in `external_task` and is taken by a worker.
  pub stage-take :
      (p : Pc)
      → s.pc i ≡ p
      → (stage ((take i p s).pc j) ≡ stage (s.pc j))
        ⊎ (stage (s.pc j) ≡ in_call) × (stage ((take i p s).pc j) ≡ on_worker)
  unfolding take
  stage-take (queued k) at = elim (ℕ_discrete i j) [
    | yes here ↦ inr (ground (arith, ap (λ h. s.pc h) here), ground arith)
    | no other ↦ inl (ground arith)
  ]
  stage-take _ at = inl refl

pub stage-steal :
    (s : Externals) (j : ℕ)
    → (stage ((steal_external s).pc j) ≡ stage (s.pc j))
      ⊎ (stage (s.pc j) ≡ in_call) × (stage ((steal_external s).pc j) ≡ on_worker)
unfolding steal_external
stage-steal s j = by_task s.external_task
  where
    after : Option ℕ → Externals
    after t = elim t [ none ↦ s | some i ↦ take i (s.pc i) s ]

    by_task :
        (t : Option ℕ)
        → (stage ((after t).pc j) ≡ stage (s.pc j))
          ⊎ (stage (s.pc j) ≡ in_call) × (stage ((after t).pc j) ≡ on_worker)
    by_task none = inl refl
    by_task (some i) = stage-take s i j (s.pc i) refl

-- The stage of thread `j` after a worker took the task that it found.
abbrev pub stage_after : Option ℕ → ℕ → Stage → Stage
stage_after none j st = st
stage_after (some i) j st = if i == j then on_worker else st

pub stage-took :
    (s : Externals) (t : Option ℕ)
    → s.external_task ≡ t
    → ((i : ℕ) → t ≡ some i → is_queued (s.pc i) ≡ true)
    → (j : ℕ) → stage ((steal_external s).pc j) ≡ stage_after t j (stage (s.pc j))
unfolding steal_external
stage-took s t at offered j =
    subst
      (λ u.
        stage ((elim u as (λ _. Externals) [ none ↦ s | some i ↦ take i (s.pc i) s ]).pc j)
        ≡ stage_after t j (stage (s.pc j)))
      (sym at) (by_task t offered)
  where
    by_pc :
        (i : ℕ) (p : Pc)
        → s.pc i ≡ p
        → is_queued p ≡ true
        → stage ((take i p s).pc j) ≡ (if i == j then on_worker else stage (s.pc j))
    by_pc i p is q = unfold take in ground arith

    by_task :
        (u : Option ℕ)
        → ((i : ℕ) → u ≡ some i → is_queued (s.pc i) ≡ true)
        → stage ((elim u as (λ _. Externals) [ none ↦ s | some i ↦ take i (s.pc i) s ]).pc j)
          ≡ stage_after u j (stage (s.pc j))
    by_task none q = refl
    by_task (some i) q = by_pc i (s.pc i) refl (q i refl)
