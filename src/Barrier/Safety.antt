-- ===== src/Barrier/Safety.antt =====
-- What the barrier guarantees to its workers, in any interleaving.
use lace.Prelude.{
  ℕ, ◌+◌, ◌^◌, ◌≤◌, ◌<◌, ◌≡◌, refl, sym, List, [], ◌∷◌, foldl, true, inl, inr, ap, subst, ◌∙◌,
  arith, total, total-const, le-total,
}
use lace.Barrier.{
  waiting, Phase, gathering, reset, armed, Barrier, barrier_init, barrier_step, all_left,
}
use lace.Barrier.Leaving.{barrier_at-Inv}
use lace.Barrier.Invariant.{
  Inv, Stands, Counted, is_last, arrived, inside, bounds, barrier_init-Inv,
}

-- The workers of a schedule are below `n`.
abbrev pub AllBelow : ℕ → List ℕ → Type 0
AllBelow n [] = Unit
AllBelow n (i ∷ l) = (i < n) × AllBelow n l

abbrev pub run_barrier : ℕ → List ℕ → Barrier → Barrier
run_barrier n l b = foldl (barrier_step n) b l

pub run_barrier-Inv :
    (n : ℕ) (l : List ℕ) (b : Barrier) → AllBelow n l → Inv n b → Inv n (run_barrier n l b)
run_barrier-Inv n [] b ok inv = inv
run_barrier-Inv n (i ∷ l) b ok inv =
    run_barrier-Inv n l (barrier_step n b i) ok.1
      (unfold barrier_step in barrier_at-Inv inv i ok.0 (b.pc i) refl)

module _ (n : ℕ) (small : n < 2 ^ 31) (l : List ℕ) (ok : AllBelow n l) where
  abbrev final : Barrier
  final = run_barrier n l barrier_init

  reached : Inv n final
  reached = run_barrier-Inv n l barrier_init ok (barrier_init-Inv n small)

  -- In any interleaving of `n` workers, nobody has left the barrier more often than any other
  -- worker has arrived at it, and the arrivals of one worker exceed the departures of another by at
  -- most two.
  pub nobody_leaves_early :
      (i j : ℕ)
      → i < n
      → j < n
      → (final.departures i ≤ final.arrivals j) × (final.arrivals i ≤ final.departures j + 2)
  nobody_leaves_early i j p q = omega (arith, bounds reached i p i p, bounds reached i p j q)

  -- The workers of a barrier never all wait for one another: not every worker spins on a value of
  -- `wait` that is still the current one.
  pub barrier_no_deadlock : 0 < n → ¬ ((i : ℕ) → i < n → final.pc i ≡ waiting final.wait)
  barrier_no_deadlock pos stuck =
      let (i, p, l) = reached.leader full pos in cc (sym (ap is_last (stuck i p)) ∙ l)
    where
      here : (i : ℕ) → i < n → arrived final i ≡ 1
      here i p = counted_in (
          subst
            (λ q.
              Stands q (final.arrivals i) (final.departures i) final.flips final.wait final.phase)
            (stuck i p) (reached.stands i p))
        where
          counted_in :
              Stands
                (waiting final.wait)
                (final.arrivals i)
                (final.departures i)
                final.flips
                final.wait
                final.phase
              → arrived final i ≡ 1
          counted_in (inl now) = omega (arith, now)
          counted_in (inr before) = absurd (before.2 refl)

      full : total (arrived final) n ≡ n
      full = ground (arith, total-const (arrived final) 1 n here)

  -- Where `lace_barrier_destroy` stops waiting, every worker has left as often as the barrier was
  -- opened.
  pub destroy_waits_for_all :
      0 < n → all_left final ≡ true → (i : ℕ) → i < n → final.departures i ≡ final.flips
  unfolding all_left
  destroy_waits_for_all pos done i p = omega (
    arith,
    nobody final.phase reached.counted,
    le-total (inside final) n i p,
    bounds reached i p i p,
  )
    where
      nobody :
          (ph : Phase)
          → Counted ph n final.count final.unleft (total (arrived final) n) (total (inside final) n)
          → total (inside final) n ≡ 0
      nobody gathering c = ground arith
      nobody reset c = c.3
      nobody armed c = absurd (ground arith)
