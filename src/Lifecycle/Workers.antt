-- ===== src/Lifecycle/Workers.antt =====
-- Each access of a worker keeps the invariant.
use lace.Prelude.{
  ℕ, ◌+◌, ◌≤◌, ◌<◌, ◌≡◌, ◌≢◌, refl, Bool, true, false, arith, total, total-change, total-le,
  if_elim, le-total, ◌==◌, if◌then◌else◌, update, sym, ap, ltb, ◌∙◌, subst,
}
use lace.Lifecycle.{
  Worker, unborn, initializing, asleep, joining, looping, working, ending, gone, Caller, quitting,
  reporting, freeing, stopped, Threads, set_worker, worker_at,
}
use lace.Lifecycle.Invariant.{runs, MayBe, quits_in, Knows, next_thread, Inv, runs-le}

asleep_may : (b : Bool) → MayBe b initializing → MayBe b asleep
asleep_may true ok = ok
asleep_may false ok = tt

joining_may : (b : Bool) → MayBe b asleep → MayBe b joining
joining_may true ok = ok
joining_may false ok = tt

looping_may : (b : Bool) → MayBe b looping
looping_may true = tt
looping_may false = tt

gone_may : (b : Bool) → MayBe b ending → MayBe b gone
gone_may true ok = tt
gone_may false ok = ok

joining_fits :
    (n m k : ℕ) (c : Caller) → MayBe (quits_in c) joining → Knows n m c → m < n → Knows n k c
joining_fits n m k quitting ok knows more = absurd (omega arith)
joining_fits n m k reporting ok knows more = absurd ok
joining_fits n m k (freeing _) ok knows more = absurd ok
joining_fits n m k stopped ok knows more = absurd ok
joining_fits n m k _ ok knows more = tt

ending_fits :
    (n m k : ℕ) (c : Caller) → MayBe (quits_in c) ending → Knows n m c → 0 < m → Knows n k c
ending_fits n m k quitting ok knows some_run = absurd ok
ending_fits n m k reporting ok knows some_run = absurd (omega arith)
ending_fits n m k (freeing _) ok knows some_run = absurd (omega arith)
ending_fits n m k stopped ok knows some_run = absurd (omega arith)
ending_fits n m k _ ok knows some_run = tt

abbrev is_born : Worker → Bool
is_born unborn = false
is_born _ = true

module _ {n : ℕ} {s : Threads} (inv : Inv n s) (i : ℕ) (p : i < n) where
  -- The count where worker `i` moves to `w`.
  pub count_at :
      (w : Worker)
      → total (λ j. runs (update s.worker i w j)) n + runs (s.worker i)
        ≡ total (λ j. runs (s.worker j)) n + runs w
  count_at w = ground (
    arith,
    total-change (λ j. runs (s.worker j)) (λ j. runs (update s.worker i w j)) n i p
        (λ j other. ground (arith, other)),
  )

  pub may_at :
      (q : Bool) (w : Worker)
      → q ≡ quits_in s.caller
      → MayBe q w
      → (j : ℕ) → j < n
      → MayBe q (update s.worker i w j)
  may_at q w e ok j r =
      if_elim (MayBe q) (i == j) _ _ (λ _. ok)
        (λ _. subst (λ b. MayBe b (s.worker j)) (sym e) (inv.may j r))

  born_at :
      (w : Worker)
      → s.worker i ≢ unborn
      → (j : ℕ) → j < n
      → next_thread n s.caller ≤ j
      → update s.worker i w j ≡ unborn
  born_at w was j r late =
      if_elim (λ v. v ≡ unborn) (i == j) _ _
        (λ e. absurd (was (inv.born i p (ground (arith, e, late))))) (λ _. inv.born j r late)

  running_few : total (λ j. runs (s.worker j)) n ≤ n
  running_few = total-le _ n (λ j _. runs-le (s.worker j))

  may_be : (w : Worker) → s.worker i ≡ w → MayBe (quits_in s.caller) w
  may_be w e = subst (MayBe (quits_in s.caller)) e (inv.may i p)

  counted : (w : Worker) → s.worker i ≡ w → runs w ≤ total (λ j. runs (s.worker j)) n
  counted w e =
      subst (λ v. runs v ≤ total (λ j. runs (s.worker j)) n) e
        (le-total (λ j. runs (s.worker j)) n i p)

  -- A worker moves that is not counted before or after, or both.
  goes_on :
      (v w : Worker) (semaphore : ℕ) (memory : ℕ → Bool)
      → s.worker i ≡ v
      → is_born v ≡ true
      → runs v ≡ runs w
      → MayBe (quits_in s.caller) w
      → Inv n (record s { worker = update s.worker i w; semaphore = semaphore; memory = memory })
  goes_on v w semaphore memory e was same ok = record {
    small = inv.small;
    quits = inv.quits;
    count = ground (arith, inv.count, count_at w, e, same);
    may = may_at _ w refl ok;
    knows = inv.knows;
    bound = inv.bound;
    born = born_at w (λ un. ground (arith, was, ap is_born (sym e ∙ un)));
  }

  pub worker_at-Inv : (w : Worker) → s.worker i ≡ w → Inv n (worker_at i w s)
  unfolding worker_at
  worker_at-Inv initializing e =
      goes_on initializing asleep s.semaphore _ e refl refl (asleep_may _ (may_be initializing e))
  worker_at-Inv asleep e =
      if_elim (Inv n) (ltb 0 s.semaphore) _ _
        (λ _. goes_on asleep joining _ s.memory e refl refl (joining_may _ (may_be asleep e)))
        (λ _. inv)
  worker_at-Inv joining e =
      let room : total (λ j. runs (update s.worker i looping j)) n ≤ n =
        total-le _ n (λ j _. runs-le (update s.worker i looping j)) in
      record {
        small = inv.small;
        quits = inv.quits;
        count = ground (arith, inv.count, count_at looping, e, room, inv.small);
        may = may_at _ looping refl (looping_may (quits_in s.caller));
        knows =
            joining_fits n _ _ s.caller (may_be joining e) inv.knows
              (ground (arith, inv.count, count_at looping, e, room));
        bound = inv.bound;
        born = born_at looping (λ un. ground (arith, ap is_born (sym e ∙ un)));
      }
  worker_at-Inv looping e = looks s.lace_quits refl
    where
      looks : (b : Bool) → s.lace_quits ≡ b → Inv n (set_worker i (if b then ending else working) s)
      looks true q =
          goes_on looping ending s.semaphore s.memory e refl refl
            (subst (λ b. MayBe b ending) (sym q ∙ inv.quits) tt)
      looks false q =
          goes_on looping working s.semaphore s.memory e refl refl
            (subst (λ b. MayBe b working) (sym q ∙ inv.quits) tt)
  worker_at-Inv working e =
      goes_on working looping s.semaphore s.memory e refl refl (looping_may (quits_in s.caller))
  worker_at-Inv ending e = record {
    small = inv.small;
    quits = inv.quits;
    count = ground (arith, inv.count, count_at gone, e, counted ending e, running_few, inv.small);
    may = may_at _ gone refl (gone_may _ (may_be ending e));
    knows =
        ending_fits n _ _ s.caller (may_be ending e) inv.knows
          (ground (arith, inv.count, counted ending e));
    bound = inv.bound;
    born = born_at gone (λ un. ground (arith, ap is_born (sym e ∙ un)));
  }
  worker_at-Inv unborn e = inv
  worker_at-Inv gone e = inv
