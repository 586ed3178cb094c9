-- ===== src/Lifecycle/Safety.antt =====
-- What `lace_stop` guarantees, in any interleaving of the caller and the workers.
use lace.Prelude.{
  ℕ, ◌^◌, ◌<◌, ◌≡◌, refl, Bool, true, false, arith, le-total, List, [], ◌∷◌, foldl, subst,
}
use lace.Lifecycle.{
  Worker, looping, working, ending, gone, Caller, reporting, freeing, stopped, Threads, lace_start,
  Move, worker, caller, step,
}
use lace.Lifecycle.Invariant.{runs, MayBe, quits_in, Knows, Inv, lace_start-Inv}
use lace.Lifecycle.Workers.{worker_at-Inv}
use lace.Lifecycle.Callers.{caller_at-Inv}

-- The workers of a schedule are below `n`.
abbrev pub AllInRange : (n : ℕ) → List Move → Type 0
AllInRange n [] = Unit
AllInRange n (worker i ∷ l) = (i < n) × AllInRange n l
AllInRange n (caller ∷ l) = AllInRange n l

abbrev pub run_threads : (n : ℕ) → List Move → Threads → Threads
run_threads n l s = foldl (step n) s l

run_threads-Inv :
    (n : ℕ) (l : List Move) (s : Threads) → AllInRange n l → Inv n s → Inv n (run_threads n l s)
unfolding step
run_threads-Inv n [] s ok inv = inv
run_threads-Inv n (worker i ∷ l) s ok inv =
    run_threads-Inv n l _ ok.1 (worker_at-Inv inv i ok.0 (s.worker i) refl)
run_threads-Inv n (caller ∷ l) s ok inv = run_threads-Inv n l _ ok (caller_at-Inv inv s.caller refl)

-- From the report on, lace_stop uses and frees the memory of the workers.
abbrev pub is_freeing : Caller → Bool
is_freeing reporting = true
is_freeing (freeing _) = true
is_freeing stopped = true
is_freeing _ = false

none_left : (w : Worker) → MayBe true w → runs w ≡ 0 → w ≡ gone
none_left gone ok none_runs = refl
none_left looping ok none_runs = absurd (omega arith)
none_left working ok none_runs = absurd (omega arith)
none_left ending ok none_runs = absurd (omega arith)
none_left _ ok none_runs = absurd ok

freeing_means :
    (n m : ℕ) (c : Caller) → is_freeing c ≡ true → Knows n m c → (quits_in c ≡ true) × (m ≡ 0)
freeing_means n m reporting e knows = (refl, knows)
freeing_means n m (freeing _) e knows = (refl, knows)
freeing_means n m stopped e knows = (refl, knows)
freeing_means n m _ e knows = absurd (ground (arith, e))

module _ (n : ℕ) (l : List Move) (small : n < 2 ^ 32) (ok : AllInRange n l) where
  abbrev final : Threads
  final = run_threads n l lace_start

  reached : Inv n final
  reached = run_threads-Inv n l lace_start ok (lace_start-Inv n small)

  -- In any interleaving of the caller of `lace_start` and `lace_stop` with fewer than 2 ^ 32
  -- workers: from the report of the counters on, while `lace_stop` frees the workers' memory and
  -- after it, every worker thread has made its last access.
  pub freed_after_all_gone :
      (i : ℕ) → i < n → is_freeing final.caller ≡ true → final.worker i ≡ gone
  freed_after_all_gone i p e =
      let knows = freeing_means n final.workers_running final.caller e reached.knows in
      none_left (final.worker i) (subst (λ b. MayBe b (final.worker i)) knows.0 (reached.may i p))
        (omega (arith, le-total (λ j. runs (final.worker j)) n i p, reached.count, knows.1))
