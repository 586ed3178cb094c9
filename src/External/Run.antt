-- ===== src/External/Run.antt =====
-- Any interleaving of the callers and the workers keeps the invariant.
use lace.Prelude.{
  ℕ, ◌-◌, ◌<◌, ◌⊎◌, ◌≡◌, refl, sym, Bool, true, false, ◌&&◌, Option, none, some, inl, inr, if_both,
  ltb, ◌==◌, update, arith, total-const,
}
use lace.External.{
  Kind, shared, exclusive, Pc, idle, entering, asleep, draining, posting, queued, taken, finished,
  Externals, no_tasks, goto, drain, claim, post, release, thread_at, start, finish, take,
  steal_external, same,
}
use lace.External.Invariant.{shares, is_lone, is_owner, is_queued, sharing, Inv, wake-Inv}
use lace.External.Changes.{
  goto-Inv, share-Inv, own-Inv, drain-Inv, offer-Inv, take-Inv, release_shared-Core,
  release_shared-Sleepers, release_exclusive-Core,
}
use lace.Prelude.{List, [], ◌∷◌, foldl}
use lace.External.{Move, call, thread, worker_takes, worker_finishes, step}

module _ {n : ℕ} {s : Externals} (inv : Inv n s) (i : ℕ) (here : i < n) where
  open inv use {core, sleepers}

  -- A thread that waits for the flag, or is about to.
  claim-Inv :
      (k : Kind)
      → shares (s.pc i) ≡ 0
      → is_owner (s.pc i) ≡ false
      → is_lone (s.pc i) ≡ false
      → is_queued (s.pc i) ≡ false
      → Inv n (claim k i s)
  unfolding claim goto drain
  claim-Inv shared es eo el eq =
      if_both (Inv n) s.is_exclusive
        (λ e.
          goto-Inv inv i here (asleep shared false) (sym es) (sym eo) (sym el) (sym eq)
            (λ l. ground arith) (λ k l. e) (λ l. ground arith))
        (λ e. share-Inv inv i here es eo eq e)
  claim-Inv exclusive es eo el eq =
      if_both (Inv n) s.is_exclusive
        (λ e.
          goto-Inv inv i here (asleep exclusive false) (sym es) (sym eo) (sym el) (sym eq)
            (λ l. ground arith) (λ k l. e) (λ l. ground arith))
        (λ e.
          if_both (Inv n) (ltb 0 s.counter)
            (λ more.
              own-Inv inv i here (draining false) es eq e refl refl refl (λ l. ground arith)
                (λ l. ground arith))
            (λ no.
              own-Inv inv i here (posting exclusive none) es eq e refl refl refl (λ l. ground arith)
                (λ l. ground arith)))

  draining-Inv : (b : Bool) → s.pc i ≡ draining b → Inv n (drain i s)
  unfolding drain goto
  draining-Inv b at =
      if_both (Inv n) (ltb 0 s.counter)
        (λ e.
          drain-Inv inv i here (draining false) (ground arith) (ground arith) (ground arith) refl
            refl refl (λ l. ground arith) (λ l. ground arith))
        (λ e.
          drain-Inv inv i here (posting exclusive none) (ground arith) (ground arith) (ground arith)
            refl refl refl (λ l. ground arith) (λ l. ground arith))

  kinds :
      (k : Kind) (exp e : Option ℕ)
      → s.pc i ≡ posting k exp
      → (shares (posting k e) ≡ shares (s.pc i))
        × (is_owner (posting k e) ≡ is_owner (s.pc i))
        × (is_lone (posting k e) ≡ is_lone (s.pc i))
        × (shares (queued k) ≡ shares (s.pc i))
        × (is_owner (queued k) ≡ is_owner (s.pc i))
        × (is_lone (queued k) ≡ is_lone (s.pc i))
        × ((shares (s.pc i) ≡ 1) ⊎ (is_owner (s.pc i) ≡ true))
  kinds shared exp e at = (
    ground arith,
    ground arith,
    ground arith,
    ground arith,
    ground arith,
    ground arith,
    inl (ground arith),
  )
  kinds exclusive exp e at = (
    ground arith,
    ground arith,
    ground arith,
    ground arith,
    ground arith,
    ground arith,
    inr (ground arith),
  )

  post-Inv :
      (luck : Bool) (k : Kind) (exp : Option ℕ)
      → s.pc i ≡ posting k exp
      → Inv n (post luck k exp i s)
  unfolding post goto
  post-Inv luck k exp at =
      let (a, b, c, d, e, f, g) = kinds k exp s.external_task at in
      if_both (Inv n) (same s.external_task exp && luck)
        (λ _. offer-Inv inv i here (queued k) d e f refl g)
        (λ _.
          goto-Inv inv i here (posting k s.external_task) a b c (ground arith) (λ l. ground arith)
            (λ _ l. ground arith) (λ l. ground arith))

  release-Inv : (k : Kind) → s.pc i ≡ finished k → Inv n (release k i s)
  unfolding release
  release-Inv shared at =
      let rest = update s.pc i idle in
      if_both (λ pc. Inv n (record s { counter = s.counter - 1; pc = pc }))
        (s.is_exclusive && (s.counter - 1 == 0))
        (λ _. wake-Inv n _ (release_shared-Core inv i here at))
        (λ busy. record {
          core = release_shared-Core inv i here at;
          sleepers = release_shared-Sleepers inv i here at busy;
        })
  release-Inv exclusive at = wake-Inv n _ (release_exclusive-Core inv i here at)

  thread_at-Inv : (luck : Bool) (p : Pc) → s.pc i ≡ p → Inv n (thread_at luck i p s)
  unfolding thread_at
  thread_at-Inv luck idle at = inv
  thread_at-Inv luck (entering k) at =
      claim-Inv k (ground arith) (ground arith) (ground arith) (ground arith)
  thread_at-Inv luck (asleep k true) at =
      claim-Inv k (ground arith) (ground arith) (ground arith) (ground arith)
  thread_at-Inv luck (asleep k false) at =
      if_both (Inv n) luck
        (λ _. claim-Inv k (ground arith) (ground arith) (ground arith) (ground arith)) (λ _. inv)
  thread_at-Inv luck (draining true) at = draining-Inv true at
  thread_at-Inv luck (draining false) at =
      if_both (Inv n) luck (λ _. draining-Inv false at) (λ _. inv)
  thread_at-Inv luck (posting k exp) at = post-Inv luck k exp at
  thread_at-Inv luck (queued k) at = inv
  thread_at-Inv luck (taken k) at = inv
  thread_at-Inv luck (finished k) at = release-Inv k at

  start-Inv : (k : Kind) (p : Pc) → s.pc i ≡ p → Inv n (start k i p s)
  unfolding start goto
  start-Inv k idle at =
      goto-Inv inv i here (entering k) (ground arith) (ground arith) (ground arith) (ground arith)
        (λ l. ground arith) (λ _ l. ground arith) (λ l. ground arith)
  start-Inv k _ at = inv

  finish-Inv : (p : Pc) → s.pc i ≡ p → Inv n (finish i p s)
  unfolding finish goto
  finish-Inv (taken shared) at =
      goto-Inv inv i here (finished shared) (ground arith) (ground arith) (ground arith)
        (ground arith) (λ l. ground arith) (λ _ l. ground arith) (λ l. ground arith)
  finish-Inv (taken exclusive) at =
      goto-Inv inv i here (finished exclusive) (ground arith) (ground arith) (ground arith)
        (ground arith) (λ l. ground arith) (λ _ l. ground arith) (λ l. ground arith)
  finish-Inv _ at = inv

  taking-Inv : (p : Pc) → s.external_task ≡ some i → s.pc i ≡ p → Inv n (take i p s)
  unfolding take
  taking-Inv (queued k) e at = take-Inv inv i here k e at
  taking-Inv p e at = absurd (ground (arith, (inv.core.offered i e).1, at))

-- The threads of a schedule are below `n`.
abbrev pub InRange : ℕ → Move → Type 0
InRange n (call _ i) = i < n
InRange n (thread _ i) = i < n
InRange n worker_takes = Unit
InRange n (worker_finishes i) = i < n

abbrev pub AllInRange : ℕ → List Move → Type 0
AllInRange n [] = Unit
AllInRange n (m ∷ l) = InRange n m × AllInRange n l

unfoldable pub run_external : List Move → Externals → Externals
run_external l s = foldl step s l

pub step-Inv : (n : ℕ) (s : Externals) (m : Move) → InRange n m → Inv n s → Inv n (step s m)
unfolding step steal_external
step-Inv n s (call k i) ok inv = start-Inv inv i ok k (s.pc i) refl
step-Inv n s (thread luck i) ok inv = thread_at-Inv inv i ok luck (s.pc i) refl
step-Inv n s worker_takes ok inv = by_task s.external_task refl
  where
    by_task :
        (t : Option ℕ)
        → s.external_task ≡ t
        → Inv n (elim t [ none ↦ s | some i ↦ take i (s.pc i) s ])
    by_task none e = inv
    by_task (some i) e = taking-Inv inv i (inv.core.offered i e).0 (s.pc i) e refl
step-Inv n s (worker_finishes i) ok inv = finish-Inv inv i ok (s.pc i) refl

pub run_external-Inv :
    (n : ℕ) (l : List Move) (s : Externals) → AllInRange n l → Inv n s → Inv n (run_external l s)
unfolding run_external
run_external-Inv n [] s ok inv = inv
run_external-Inv n (m ∷ l) s ok inv = run_external-Inv n l (step s m) ok.1 (step-Inv n s m ok.0 inv)

pub no_tasks-Inv : (n : ℕ) → Inv n no_tasks
no_tasks-Inv n = record {
  core = record {
    counts = ground (arith, total-const (sharing (λ _. idle)) 0 n (λ i p. refl));
    owned = λ e. ground arith;
    owners = λ i p e. ground arith;
    one = λ i j p q e o. ground arith;
    alone = λ i p e. refl;
    offered = λ i e. ground arith;
    listed = λ i p e. ground arith;
  };
  sleepers = record { waits = λ i k p e. ground arith; drains = λ i p e. ground arith };
}
