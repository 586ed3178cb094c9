-- ===== src/Barrier/Opening.antt =====
-- The last worker opens the barrier.
use lace.Prelude.{ℕ, ◌+◌, ◌-◌, ◌<◌, ◌≡◌, ◌≢◌, refl, ap, true, arith, update, total, total-const}
use native.Mathlib.Decide.{ℕ_discrete}
use lace.Barrier.{
  Pc, out, entered, waiting, resetting, arming, flipping, leaving, gathering, reset, armed, Barrier,
}
use lace.Barrier.Invariant.{Stands, is_last, arrived, inside, Inv, bounds, everyone_arrived}

module _ {n : ℕ} {b : Barrier} (inv : Inv n b) (i : ℕ) (here : i < n) where
  -- The last worker stores: everybody has arrived and nobody is inside from before.
  last_facts :
      is_last (b.pc i) ≡ true
      → (total (arrived b) n ≡ n)
        × (total (inside b) n ≡ 0)
        × ((j : ℕ) → j < n → (b.arrivals j ≡ b.flips + 1) × (b.departures j ≡ b.flips))
  last_facts l = (
    full,
    total-const (inside b) 0 n (λ j p. omega (arith, gone j p)) (omega arith),
    λ j p. (everyone_arrived inv i here full j p, gone j p),
  )
    where
      full : total (arrived b) n ≡ n
      full = inv.last i here l

      gone : (j : ℕ) → j < n → b.departures j ≡ b.flips
      gone j p = omega (arith, everyone_arrived inv i here full j p, bounds inv i here j p)

  -- The others wait while the last worker stores.
  others :
      is_last (b.pc i) ≡ true
      → (j : ℕ) → j < n
      → i ≢ j
      → (w : ℕ) × (b.pc j ≡ waiting w) × (w ≡ b.wait)
  others l j p other = waits (b.pc j) refl (inv.stands j p)
    where
      all : (b.arrivals j ≡ b.flips + 1) × (b.departures j ≡ b.flips)
      all = (last_facts l).2 j p

      waits :
          (q : Pc)
          → b.pc j ≡ q
          → Stands q (b.arrivals j) (b.departures j) b.flips b.wait b.phase
          → (w : ℕ) × (b.pc j ≡ waiting w) × (w ≡ b.wait)
      waits out e st = absurd (omega (arith, all))
      waits (entered w) e st = absurd (omega (arith, all))
      waits (waiting w) e st = (w, e, ground (arith, all))
      waits (resetting w) e st = absurd (other (inv.one i j here p l (ap is_last e)))
      waits (arming w) e st = absurd (other (inv.one i j here p l (ap is_last e)))
      waits (flipping w) e st = absurd (other (inv.one i j here p l (ap is_last e)))
      waits leaving e st = absurd (omega (arith, all))

  pub reset-Inv :
      (w : ℕ)
      → b.pc i ≡ resetting w
      → Inv n (record b { count = 0; phase = reset; pc = update b.pc i (arming w) })
  reset-Inv w at = record {
    small = inv.small;
    parity = inv.parity;
    stands = λ j p. elim (ℕ_discrete i j) [
      | yes same ↦ ground (arith, inv.stands i here)
      | no other ↦ let (v, e, q) = others l j p other in ground (arith, inv.stands j p, e)
    ];
    counted = (refl, ground (arith, inv.stands i here, inv.counted, facts.1), facts.0, facts.1);
    last = λ j p _. facts.0;
    leader = λ _ _. (i, here, ground arith);
    one = λ j k p q lj lk. ground (arith, inv.one j k p q, inv.one i j here p, inv.one i k here q);
  }
    where
      l : is_last (b.pc i) ≡ true
      l = ap is_last at

      facts :
          (total (arrived b) n ≡ n)
          × (total (inside b) n ≡ 0)
          × ((j : ℕ) → j < n → (b.arrivals j ≡ b.flips + 1) × (b.departures j ≡ b.flips))
      facts = last_facts l

  pub arm-Inv :
      (w : ℕ)
      → b.pc i ≡ arming w
      → Inv n (record b { unleft = n; phase = armed; pc = update b.pc i (flipping w) })
  arm-Inv w at = record {
    small = inv.small;
    parity = inv.parity;
    stands = λ j p. elim (ℕ_discrete i j) [
      | yes same ↦ ground (arith, inv.stands i here)
      | no other ↦ let (v, e, q) = others l j p other in ground (arith, inv.stands j p, e)
    ];
    counted = (ground (arith, inv.stands i here, inv.counted), refl, facts.0, facts.1);
    last = λ j p _. facts.0;
    leader = λ _ _. (i, here, ground arith);
    one = λ j k p q lj lk. ground (arith, inv.one j k p q, inv.one i j here p, inv.one i k here q);
  }
    where
      l : is_last (b.pc i) ≡ true
      l = ap is_last at

      facts :
          (total (arrived b) n ≡ n)
          × (total (inside b) n ≡ 0)
          × ((j : ℕ) → j < n → (b.arrivals j ≡ b.flips + 1) × (b.departures j ≡ b.flips))
      facts = last_facts l

  pub flip-Inv :
      (w : ℕ)
      → b.pc i ≡ flipping w
      → Inv n (record b {
        wait = 1 - w;
        flips = b.flips + 1;
        phase = gathering;
        pc = update b.pc i leaving;
      })
  flip-Inv w at = record {
    small = inv.small;
    parity = ground (arith, inv.stands i here, inv.parity);
    stands = λ j p. elim (ℕ_discrete i j) [
      | yes same ↦ ground (arith, inv.stands i here)
      | no other ↦
          let (v, e, q) = others l j p other in
          ground (arith, inv.stands i here, facts.2 j p, e, inv.parity)
    ];
    counted = (
      ground (
        arith,
        inv.stands i here,
        inv.counted,
        total-const (arrived b') 0 n (λ j p. omega (arith, facts.2 j p)),
      ),
      ground (
        arith,
        inv.stands i here,
        inv.counted,
        total-const (inside b') 1 n (λ j p. omega (arith, facts.2 j p)),
      ),
    );
    last = λ j p lj. absurd (none_last j p lj);
    leader = λ full pos.
        absurd (ground (arith, total-const (arrived b') 0 n (λ j p. omega (arith, facts.2 j p))));
    one = λ j k p q lj lk. absurd (none_last j p lj);
  }
    where
      l : is_last (b.pc i) ≡ true
      l = ap is_last at

      facts :
          (total (arrived b) n ≡ n)
          × (total (inside b) n ≡ 0)
          × ((j : ℕ) → j < n → (b.arrivals j ≡ b.flips + 1) × (b.departures j ≡ b.flips))
      facts = last_facts l

      b' : Barrier
      b' = record b { flips = b.flips + 1 }

      none_last : (j : ℕ) → j < n → is_last (update b.pc i leaving j) ≡ true → ⊥
      none_last j p lj = elim (ℕ_discrete i j) [
        | yes same ↦ ground arith
        | no other ↦ let (v, e, q) = others l j p other in ground (arith, e)
      ]
