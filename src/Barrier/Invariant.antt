-- ===== src/Barrier/Invariant.antt =====
-- The invariant of the barrier: who has arrived and who has not left yet.
use lace.Prelude.{
  ℕ, ◌+◌, ◌-◌, ◌%◌, ◌^◌, ◌≤◌, ◌<◌, ◌≡◌, ◌≢◌, ◌⊎◌, refl, subst, Bool, true, false, arith, total,
  total-full, total-const,
}
use lace.Barrier.{
  Pc, out, entered, waiting, resetting, arming, flipping, leaving, Phase, gathering, reset, armed,
  Barrier, barrier_init,
}

-- What the point where a worker stands says of its arrivals `a` and departures `d`, with `g` flips
-- so far.
abbrev pub Stands : Pc → (a d g wait : ℕ) → Phase → Type 0
Stands out a d g wait ph = (a ≡ g) × (d ≡ g)
Stands (entered w) a d g wait ph = (a ≡ g) × (d ≡ g) × (w ≡ wait)
Stands (waiting w) a d g wait ph =
    (a ≡ g + 1) × (d ≡ g) × (w ≡ wait) ⊎ (a ≡ g) × (d + 1 ≡ g) × (w ≢ wait)
Stands (resetting w) a d g wait ph = (a ≡ g + 1) × (d ≡ g) × (w ≡ wait) × (ph ≡ gathering)
Stands (arming w) a d g wait ph = (a ≡ g + 1) × (d ≡ g) × (w ≡ wait) × (ph ≡ reset)
Stands (flipping w) a d g wait ph = (a ≡ g + 1) × (d ≡ g) × (w ≡ wait) × (ph ≡ armed)
Stands leaving a d g wait ph = (a ≡ g) × (d + 1 ≡ g)

-- The last worker, between its arrival and the flip.
abbrev pub is_last : Pc → Bool
is_last (resetting _) = true
is_last (arming _) = true
is_last (flipping _) = true
is_last _ = false

-- Workers that have arrived since the last flip, and that have not left since.
abbrev pub arrived : Barrier → ℕ → ℕ
arrived b i = b.arrivals i - b.flips

abbrev pub inside : Barrier → ℕ → ℕ
inside b i = b.flips - b.departures i

-- The two counters.
abbrev pub Counted : Phase → (n count unleft arrived inside : ℕ) → Type 0
Counted gathering n c u a l = (c ≡ a) × (u ≡ l)
Counted reset n c u a l = (c ≡ 0) × (u ≡ 0) × (a ≡ n) × (l ≡ 0)
Counted armed n c u a l = (c ≡ 0) × (u ≡ n) × (a ≡ n) × (l ≡ 0)

pub record Inv (n : ℕ) (b : Barrier) : Type 0 where
  pub small : n < 2 ^ 31
  pub parity : b.wait ≡ b.flips % 2
  pub stands :
      (i : ℕ) → i < n → Stands (b.pc i) (b.arrivals i) (b.departures i) b.flips b.wait b.phase
  pub counted : Counted b.phase n b.count b.unleft (total (arrived b) n) (total (inside b) n)
  pub last : (i : ℕ) → i < n → is_last (b.pc i) ≡ true → total (arrived b) n ≡ n
  pub one : (i j : ℕ) → i < n → j < n → is_last (b.pc i) ≡ true → is_last (b.pc j) ≡ true → i ≡ j
  pub leader : total (arrived b) n ≡ n → 0 < n → (i : ℕ) × (i < n) × (is_last (b.pc i) ≡ true)

-- In each state a worker is at most one round ahead or behind.
Stands-bounds :
    (p : Pc) (a d g w : ℕ) (ph : Phase)
    → Stands p a d g w ph
    → (g ≤ a) × (a ≤ g + 1) × (d ≤ g) × (g ≤ d + 1) × (a ≤ d + 1) × (d ≤ a)
Stands-bounds out a d g w ph st = omega arith
Stands-bounds _ a d g w ph st = ground arith

module _ {n : ℕ} {b : Barrier} (inv : Inv n b) (i : ℕ) (here : i < n) where
  pub bounds :
      (j : ℕ)
      → j < n
      → (b.flips ≤ b.arrivals j)
        × (b.arrivals j ≤ b.flips + 1)
        × (b.departures j ≤ b.flips)
        × (b.flips ≤ b.departures j + 1)
        × (b.arrivals j ≤ b.departures j + 1)
        × (b.departures j ≤ b.arrivals j)
  bounds j p = Stands-bounds (b.pc j) _ _ _ _ _ (inv.stands j p)

  pub everyone_arrived : total (arrived b) n ≡ n → (j : ℕ) → j < n → b.arrivals j ≡ b.flips + 1
  everyone_arrived full j p =
      omega
        (arith, bounds j p, total-full (arrived b) n (λ k q. omega (arith, bounds k q)) full j p)

  pub not_full : b.arrivals i ≡ b.flips → total (arrived b) n ≢ n
  not_full early full = omega (arith, everyone_arrived full i here)

  pub is_gathering :
      b.arrivals i ≡ b.flips
      → (b.phase ≡ gathering)
        × Counted gathering n b.count b.unleft (total (arrived b) n) (total (inside b) n)
  is_gathering early = (
    e,
    subst (λ ph. Counted ph n b.count b.unleft (total (arrived b) n) (total (inside b) n)) e
        inv.counted,
  )
    where
      phase_cases :
          (ph : Phase)
          → Counted ph n b.count b.unleft (total (arrived b) n) (total (inside b) n)
          → ph ≡ gathering
      phase_cases gathering c = refl
      phase_cases reset c = absurd (not_full early c.2)
      phase_cases armed c = absurd (not_full early c.2)

      e : b.phase ≡ gathering
      e = phase_cases b.phase inv.counted

pub barrier_init-Inv : (n : ℕ) → n < 2 ^ 31 → Inv n barrier_init
barrier_init-Inv n small = record {
  small = small;
  parity = omega arith;
  stands = λ i p. (refl, refl);
  counted = (
    ground (arith, total-const (arrived barrier_init) 0 n (λ i p. refl)),
    ground (arith, total-const (inside barrier_init) 0 n (λ i p. refl)),
  );
  last = λ i p l. cc;
  leader =
      λ full pos. absurd (ground (arith, total-const (arrived barrier_init) 0 n (λ i p. refl)));
  one = λ i j p q l. cc;
}
