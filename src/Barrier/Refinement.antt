-- ===== src/Barrier/Refinement.antt =====
-- The barrier as its callers see it: `lace_barrier` implements a meeting of all workers.
use lace.Prelude.{ℕ, ◌+◌, ◌^◌, ◌<◌, ◌≡◌, ◌≢◌, refl, List, true, arith, ◌==◌, if◌then◌else◌}
use native.Mathlib.Decide.{ℕ_discrete}
use lace.Barrier.{
  Pc, out, entered, waiting, resetting, arming, flipping, leaving, Barrier, barrier_init,
  barrier_at, barrier_step,
}
use lace.Barrier.Invariant.{Inv, is_last, everyone_arrived, barrier_init-Inv}
use lace.Barrier.Safety.{AllBelow, run_barrier, run_barrier-Inv}

-- A worker has not come, waits for the others, or may go.
pub data Place : Type 0 where
  away present released : Place

-- What one step of a meeting of `n` workers does to their places.
pub data Meeting (n : ℕ) (old new : ℕ → Place) : Type 0 where
  comes :
      (i : ℕ)
      → old i ≡ away
      → new i ≡ present
      → ((j : ℕ) → j < n → i ≢ j → new j ≡ old j)
      → Meeting n old new
  opens : ((j : ℕ) → j < n → (old j ≡ present) × (new j ≡ released)) → Meeting n old new
  goes :
      (i : ℕ)
      → old i ≡ released
      → new i ≡ away
      → ((j : ℕ) → j < n → i ≢ j → new j ≡ old j)
      → Meeting n old new
  stays : ((j : ℕ) → j < n → new j ≡ old j) → Meeting n old new

-- The place of a worker in the code: one that spins is released by a flip of `lace_bar.wait`.
abbrev pub place_at : (wait : ℕ) → Pc → Place
place_at wait out = away
place_at wait (entered w) = away
place_at wait (waiting w) = if w == wait then present else released
place_at wait (resetting w) = present
place_at wait (arming w) = present
place_at wait (flipping w) = present
place_at wait leaving = released

abbrev pub places : Barrier → ℕ → Place
places b i = place_at b.wait (b.pc i)

module _ {n : ℕ} {b : Barrier} (inv : Inv n b) (i : ℕ) (here : i < n) where
  flip-opens :
      (w : ℕ) → b.pc i ≡ flipping w → Meeting n (places b) (places (barrier_at n i (flipping w) b))
  unfolding barrier_at
  flip-opens w at = opens (λ j p. (
    ground (arith, inv.stands j p, all_here j p),
    elim (ℕ_discrete i j) [
      | yes same ↦ ground (arith, same)
      | no other ↦
          ground
            (arith, other, inv.parity, inv.stands i here, inv.stands j p, all_here j p, alone j p)
    ],
  ))
    where
      all_here : (j : ℕ) → j < n → b.arrivals j ≡ b.flips + 1
      all_here = everyone_arrived inv i here (inv.last i here (ground arith))

      alone : (j : ℕ) → j < n → is_last (b.pc j) ≡ true → i ≡ j
      alone j p l = inv.one i j here p (ground arith) l

  pub barrier_at-Meeting :
      (p : Pc) → b.pc i ≡ p → Meeting n (places b) (places (barrier_at n i p b))
  unfolding barrier_at
  barrier_at-Meeting out at = stays (λ j p. ground arith)
  barrier_at-Meeting (entered w) at =
      comes i (ground arith) (ground (arith, inv.stands i here)) (λ j p ne. ground arith)
  barrier_at-Meeting (waiting w) at = stays (λ j p. ground arith)
  barrier_at-Meeting (resetting w) at = stays (λ j p. ground arith)
  barrier_at-Meeting (arming w) at = stays (λ j p. ground arith)
  barrier_at-Meeting (flipping w) at = flip-opens w at
  barrier_at-Meeting leaving at = goes i (ground arith) (ground arith) (λ j p ne. ground arith)

-- In any interleaving of `n` workers, each access of a worker to the barrier is a step of a meeting: a
-- worker comes that was away, everybody is released at once when all `n` are present, a released
-- worker goes, or nothing changes for any of them.
pub barrier_step-Meeting :
    (n : ℕ)
    → n < 2 ^ 31
    → (l : List ℕ) → AllBelow n l
    → (i : ℕ) → i < n
    → Meeting n
        (places (run_barrier n l barrier_init))
        (places (barrier_step n (run_barrier n l barrier_init) i))
unfolding barrier_step
barrier_step-Meeting n small l ok i here =
    barrier_at-Meeting (run_barrier-Inv n l barrier_init ok (barrier_init-Inv n small)) i here _
      refl
