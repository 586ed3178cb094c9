-- ===== src/Barrier/Arriving.antt =====
-- A worker arrives at the barrier, or waits there.
use lace.Prelude.{
  ℕ, ◌+◌, ◌≤◌, ◌<◌, ◌≡◌, sym, subst, true, arith, ◌==◌, if◌then◌else◌, u32, update, bump, total,
  total-change, total-le,
}
use native.Mathlib.Decide.{ℕ_discrete}
use lace.Barrier.{out, entered, waiting, resetting, leaving, gathering, Barrier}
use lace.Barrier.Invariant.{is_last, arrived, inside, Counted, Inv, bounds, not_full, is_gathering}

module _ {n : ℕ} {b : Barrier} (inv : Inv n b) (i : ℕ) (here : i < n) where
  -- A worker that moves without arriving, leaving or storing.
  pub enter-Inv : b.pc i ≡ out → Inv n (record b { pc = update b.pc i (entered b.wait) })
  enter-Inv at = record {
    small = inv.small;
    parity = inv.parity;
    stands = λ j p. ground (arith, inv.stands j p, inv.stands i here);
    counted = inv.counted;
    last = λ j p l. inv.last j p (ground arith);
    leader = λ full pos. let (j, p, l) = inv.leader full pos in (j, p, ground arith);
    one = λ j k p q lj lk. inv.one j k p q (ground arith) (ground arith);
  }

  pub spin-Inv :
      (w : ℕ)
      → b.pc i ≡ waiting w
      → Inv n (record b { pc = update b.pc i (if w == b.wait then waiting w else leaving) })
  spin-Inv w at = record {
    small = inv.small;
    parity = inv.parity;
    stands = λ j p. ground (arith, inv.stands j p, inv.stands i here);
    counted = inv.counted;
    last = λ j p l. inv.last j p (ground arith);
    leader = λ full pos. let (j, p, l) = inv.leader full pos in (j, p, ground arith);
    one = λ j k p q lj lk. inv.one j k p q (ground arith) (ground arith);
  }

  pub arrive-Inv :
      (w : ℕ)
      → b.pc i ≡ entered w
      → Inv n (record b {
        count = u32 (b.count + 1);
        arrivals = bump b.arrivals i;
        pc = update b.pc i (if n == 1 + b.count then resetting w else waiting w);
      })
  arrive-Inv w at = record {
    small = inv.small;
    parity = inv.parity;
    stands = λ j p. ground (arith, inv.stands j p, inv.stands i here, open_now.0);
    counted =
        subst
          (λ ph.
            Counted ph n (u32 (b.count + 1)) b.unleft (total (arrived b') n) (total (inside b) n))
          (sym open_now.0) (omega (arith, open_now.1, more, room, inv.small));
    last = λ j p l. elim (ℕ_discrete i j) [
      | yes same ↦ ground (arith, open_now.1, more)
      | no other ↦ absurd (none_last j p (ground arith))
    ];
    leader = λ full pos. (i, here, ground (arith, open_now.1, more));
    one = λ j k p q lj lk. ground (arith, none_last j p, none_last k q);
  }
    where
      early : b.arrivals i ≡ b.flips
      early = ground (arith, inv.stands i here)

      open_now :
          (b.phase ≡ gathering)
          × Counted gathering n b.count b.unleft (total (arrived b) n) (total (inside b) n)
      open_now = is_gathering inv i here early

      none_last : (j : ℕ) → j < n → is_last (b.pc j) ≡ true → ⊥
      none_last j p l = not_full inv i here early (inv.last j p l)

      b' : Barrier
      b' = record b { arrivals = bump b.arrivals i }

      more : total (arrived b') n ≡ total (arrived b) n + 1
      more =
          ground
            (arith, early, total-change (arrived b) (arrived b') n i here (λ j ne. ground arith))

      room : total (arrived b) n ≤ n
      room = total-le (arrived b) n (λ k q. omega (arith, bounds inv i here k q))
