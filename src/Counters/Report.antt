-- ===== src/Counters/Report.antt =====
-- What `lace_count_report_file` prints of the time slices of all workers.
use lace.Prelude.{ℕ, zero, suc, ◌+◌, ◌-◌, ◌^◌, ◌≤◌, ◌<◌, ◌≡◌, refl, arith}
use lace.Counters.{
  Ctr, init, close, wapp, lapp, wsteal, lsteal, wstealsucc, lstealsucc, wsignal, lsignal, Meter,
  ctr_all, steal_search, leap_search, sum_count,
}
use lace.Counters.Slices.{Accounted}

-- The time that the workers have been measured, together.
unfoldable pub elapsed : (start : ℕ → ℕ) → (ℕ → Meter) → ℕ → ℕ
elapsed start w zero = 0
elapsed start w (suc n) = elapsed start w n + ((w n).time - start n)

record Totals (all : Ctr → ℕ) (e : ℕ) : Type 0 where
  pub slices : all init + all close + all wapp + all lapp + all wsteal + all lsteal ≡ e
  pub steal : all wstealsucc + all wsignal ≤ all wsteal
  pub leap : all lstealsucc + all lsignal ≤ all lsteal

totals :
    (start : ℕ → ℕ) (w : ℕ → Meter) (n : ℕ)
    → ((i : ℕ) → i < n → Accounted (start i) (w i))
    → elapsed start w n < 2 ^ 62
    → Totals (ctr_all w n) (elapsed start w n)
unfolding ctr_all elapsed
totals start w zero ok few = record { slices = refl; steal = omega arith; leap = omega arith }
totals start w (suc n) ok few =
    let ih = totals start w n (λ i i<n. ok i (omega arith)) (omega arith) in
    let mine = ok n (omega arith) in
    record {
      slices = ground (arith, ih.slices, ih.steal, ih.leap, mine.all, mine.steal, mine.leap, few);
      steal = ground (arith, ih.slices, ih.steal, ih.leap, mine.all, mine.steal, mine.leap, few);
      leap = ground (arith, ih.slices, ih.steal, ih.leap, mine.all, mine.steal, mine.leap, few);
    }

-- What is printed of the sums, for an elapsed time.
pub record Reported (all : Ctr → ℕ) (e : ℕ) : Type 0 where
  pub total : sum_count all ≡ e + (all wstealsucc + all lstealsucc) + (all wsignal + all lsignal)
  pub steal : steal_search all + all wstealsucc + all wsignal ≡ all wsteal
  pub leap : leap_search all + all lstealsucc + all lsignal ≡ all lsteal

-- For workers that are accounted for, with less than 2 ^ 62 clock ticks together: what is printed as
-- the "total time" is the time they were measured together, plus the time of successful steals and
-- leaps and that of signals once more; and what is printed as the time of the search for work is
-- what is left of the time of stealing without them, which does not wrap around.
pub report_sums :
    (start : ℕ → ℕ) (w : ℕ → Meter) (n : ℕ)
    → ((i : ℕ) → i < n → Accounted (start i) (w i))
    → elapsed start w n < 2 ^ 62
    → Reported (ctr_all w n) (elapsed start w n)
unfolding sum_count steal_search leap_search
report_sums start w n ok few =
    let t = totals start w n ok few in
    record {
      total = ground (arith, t.slices, t.steal, t.leap, few);
      steal = ground (arith, t.slices, t.steal, t.leap, few);
      leap = ground (arith, t.slices, t.steal, t.leap, few);
    }
