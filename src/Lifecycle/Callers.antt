-- ===== src/Lifecycle/Callers.antt =====
-- Each access of the caller keeps the invariant.
use lace.Prelude.{
  ℕ, zero, suc, ◌+◌, ◌<◌, ◌≡◌, refl, Bool, true, false, arith, if_elim, total-full, ◌==◌, sym, ap,
  ◌∙◌, subst,
}
use lace.Lifecycle.{
  Worker, unborn, initializing, looping, working, ending, Caller, creating, posting, using, waiting,
  quitting, draining, reporting, freeing, stopped, Threads, set_worker, set_caller, caller_at,
}
use lace.Lifecycle.Invariant.{runs, MayBe, quits_in, Knows, next_thread, Inv, runs-le}
use lace.Lifecycle.Workers.{count_at, may_at}

counted_may : (w : Worker) → MayBe false w → runs w ≡ 1 → MayBe true w
counted_may looping ok one = tt
counted_may working ok one = tt
counted_may ending ok one = tt
counted_may _ ok one = absurd (omega arith)

module _ {n : ℕ} {s : Threads} (inv : Inv n s) where
  -- The caller goes on, with what it knows; only the memory and the semaphore change.
  caller_goes_on :
      (c d : Caller) (semaphore : ℕ) (memory : ℕ → Bool)
      → s.caller ≡ c
      → quits_in c ≡ quits_in d
      → Knows n s.workers_running d
      → next_thread n d ≡ n
      → Inv n (record s { caller = d; semaphore = semaphore; memory = memory })
  caller_goes_on c d semaphore memory e same knows all_born = record {
    small = inv.small;
    quits = inv.quits ∙ ap quits_in e ∙ same;
    count = inv.count;
    may = λ i p. subst (λ b. MayBe b (s.worker i)) (ap quits_in e ∙ same) (inv.may i p);
    knows = knows;
    bound = omega (arith, all_born);
    born = λ i p late. absurd (omega (arith, all_born, late));
  }

  known : (c : Caller) → s.caller ≡ c → Knows n s.workers_running c
  known c e = subst (Knows n s.workers_running) e inv.knows

  creates :
      (k : ℕ)
      → s.caller ≡ creating k
      → k < n
      → Inv n (set_caller (creating (k + 1)) (set_worker k initializing s))
  unfolding set_caller set_worker
  creates k e p =
      let fresh : s.worker k ≡ unborn = inv.born k p (ground (arith, ap (next_thread n) e)) in
      record {
        small = inv.small;
        quits = inv.quits ∙ ap quits_in e;
        count = ground (arith, inv.count, count_at inv k p initializing, fresh);
        may = may_at inv k p false initializing (sym (ap quits_in e)) tt;
        knows = tt;
        bound = omega (arith, p);
        born = λ i q late.
            if_elim (λ v. v ≡ unborn) (k == i) _ _ (λ same. absurd (ground (arith, same, late)))
              (λ _. inv.born i q (ground (arith, late, ap (next_thread n) e)));
      }

  quits_now : s.caller ≡ quitting → Inv n (set_caller draining (record s { lace_quits = true }))
  unfolding set_caller
  quits_now e = record {
    small = inv.small;
    quits = refl;
    count = inv.count;
    may = λ i p.
        counted_may (s.worker i) (subst (λ b. MayBe b (s.worker i)) (ap quits_in e) (inv.may i p)) (
          total-full (λ j. runs (s.worker j)) n (λ j _. runs-le (s.worker j))
            (sym inv.count ∙ known quitting e) i p);
    knows = tt;
    bound = omega arith;
    born = λ i p late. absurd (omega arith);
  }

  pub caller_at-Inv : (c : Caller) → s.caller ≡ c → Inv n (caller_at n c s)
  unfolding caller_at set_caller
  caller_at-Inv (creating k) e =
      if_elim (Inv n) (k == n) _ _
        (λ _. caller_goes_on (creating k) (posting n) s.semaphore s.memory e refl tt refl)
        (λ more. creates k e (ground (arith, more, inv.bound, ap (next_thread n) e)))
  caller_at-Inv (posting zero) e =
      caller_goes_on (posting zero) using s.semaphore s.memory e refl tt refl
  caller_at-Inv (posting (suc k)) e =
      caller_goes_on (posting (suc k)) (posting k) _ s.memory e refl tt refl
  caller_at-Inv using e = caller_goes_on using waiting s.semaphore s.memory e refl tt refl
  caller_at-Inv waiting e =
      if_elim (Inv n) (s.workers_running == n) _ _
        (λ all.
          caller_goes_on waiting quitting s.semaphore s.memory e refl (ground (arith, all)) refl)
        (λ _. inv)
  caller_at-Inv quitting e = quits_now e
  caller_at-Inv draining e =
      if_elim (Inv n) (s.workers_running == 0) _ _
        (λ all.
          caller_goes_on draining reporting s.semaphore s.memory e refl (ground (arith, all)) refl)
        (λ _. inv)
  caller_at-Inv reporting e =
      caller_goes_on reporting (freeing 0) s.semaphore s.memory e refl (known reporting e) refl
  caller_at-Inv (freeing i) e =
      if_elim (Inv n) (i == n) _ _
        (λ _.
          caller_goes_on (freeing i) stopped s.semaphore s.memory e refl (known (freeing i) e) refl)
        (λ _.
          caller_goes_on (freeing i) (freeing (i + 1)) s.semaphore _ e refl (known (freeing i) e)
            refl)
  caller_at-Inv stopped e = inv
