-- ===== src/Barrier/Leaving.antt =====
-- A worker leaves the barrier; every step keeps the invariant.
use lace.Prelude.{
  ℕ, ◌+◌, ◌-◌, ◌^◌, ◌≤◌, ◌<◌, ◌≡◌, sym, subst, true, arith, u32, update, bump, total, total-change,
  total-le,
}
use lace.Barrier.{
  Pc, out, entered, waiting, resetting, arming, flipping, leaving, gathering, Barrier, barrier_at,
}
use lace.Barrier.Invariant.{is_last, arrived, inside, Counted, Inv, bounds, not_full, is_gathering}
use lace.Barrier.Arriving.{enter-Inv, spin-Inv, arrive-Inv}
use lace.Barrier.Opening.{reset-Inv, arm-Inv, flip-Inv}

module _ {n : ℕ} {b : Barrier} (inv : Inv n b) (i : ℕ) (here : i < n) where
  leave-Inv :
      b.pc i ≡ leaving
      → Inv n (record b {
        unleft = u32 (b.unleft + 2 ^ 32 - 1);
        departures = bump b.departures i;
        pc = update b.pc i out;
      })
  leave-Inv at = record {
    small = inv.small;
    parity = inv.parity;
    stands = λ j p. ground (arith, inv.stands j p, inv.stands i here);
    counted =
        subst
          (λ ph.
            Counted ph n b.count (u32 (b.unleft + 2 ^ 32 - 1)) (total (arrived b) n)
              (total (inside b') n))
          (sym open_now.0) (omega (arith, open_now.1, fewer, room, inv.small));
    last = λ j p lj. absurd (none_last j p (ground arith));
    leader = λ full pos. absurd (not_full inv i here early full);
    one = λ j k p q lj lk. absurd (none_last j p (ground arith));
  }
    where
      early : b.arrivals i ≡ b.flips
      early = ground (arith, inv.stands i here)

      open_now :
          (b.phase ≡ gathering)
          × Counted gathering n b.count b.unleft (total (arrived b) n) (total (inside b) n)
      open_now = is_gathering inv i here early

      none_last : (j : ℕ) → j < n → is_last (b.pc j) ≡ true → ⊥
      none_last j p l = not_full inv i here early (inv.last j p l)

      b' : Barrier
      b' = record b { departures = bump b.departures i }

      fewer : total (inside b') n + 1 ≡ total (inside b) n
      fewer = ground (
        arith,
        inv.stands i here,
        total-change (inside b) (inside b') n i here (λ j ne. ground arith),
      )

      room : total (inside b) n ≤ n
      room = total-le (inside b) n (λ k q. omega (arith, bounds inv i here k q))

  pub barrier_at-Inv : (p : Pc) → b.pc i ≡ p → Inv n (barrier_at n i p b)
  unfolding barrier_at
  barrier_at-Inv out at = enter-Inv inv i here at
  barrier_at-Inv (entered w) at = arrive-Inv inv i here w at
  barrier_at-Inv (waiting w) at = spin-Inv inv i here w at
  barrier_at-Inv (resetting w) at = reset-Inv inv i here w at
  barrier_at-Inv (arming w) at = arm-Inv inv i here w at
  barrier_at-Inv (flipping w) at = flip-Inv inv i here w at
  barrier_at-Inv leaving at = leave-Inv at
