-- ===== src/Prelude/Total.antt =====
-- Sums over the first `n` members of a family.
use Prim.Native.Nat.{ℕ, zero, suc, ◌+◌, ◌≤◌, ◌<◌}
use mathlib.Core.Path.{◌≡◌, refl, sym, ap}
use lace.Prelude.Tests.{◌==◌, if◌then◌else◌}
use mathlib.Core.Logic.{◌≢◌}
use native.Mathlib.Decide.{dec_lt, ℕ_discrete}
use native.Mathlib.Omega.{arith}

unfoldable pub total : (ℕ → ℕ) → ℕ → ℕ
total g zero = 0
total g (suc n) = total g n + g n

pub total-ext : (g h : ℕ → ℕ) (n : ℕ) → ((i : ℕ) → i < n → g i ≡ h i) → total g n ≡ total h n
unfolding total
total-ext g h zero same = refl
total-ext g h (suc n) same =
    omega (arith, total-ext g h n (λ i p. same i (omega arith)), same n (omega arith))

-- One member changes.
pub total-change :
    (g h : ℕ → ℕ) (n i : ℕ)
    → i < n
    → ((j : ℕ) → j ≢ i → g j ≡ h j)
    → total h n + g i ≡ total g n + h i
unfolding total
total-change g h zero i p same = absurd (omega arith)
total-change g h (suc n) i p same = elim (ℕ_discrete i n) [
  | yes last ↦ omega (arith, total-ext g h n (λ j q. same j (omega arith)), ap g last, ap h last)
  | no earlier ↦
      omega (arith, total-change g h n i (omega arith) same, same n (λ e. earlier (sym e)))
]

pub total-le : (g : ℕ → ℕ) (n : ℕ) → ((i : ℕ) → i < n → g i ≤ 1) → total g n ≤ n
unfolding total
total-le g zero small = omega arith
total-le g (suc n) small =
    omega (arith, total-le g n (λ i p. small i (omega arith)), small n (omega arith))

-- A full sum of zeros and ones has only ones.
pub total-full :
    (g : ℕ → ℕ) (n : ℕ) → ((i : ℕ) → i < n → g i ≤ 1) → total g n ≡ n → (i : ℕ) → i < n → g i ≡ 1
unfolding total
total-full g zero small full i p = absurd (omega arith)
total-full g (suc n) small full i p = elim (ℕ_discrete i n) [
  | yes last ↦
      omega (arith, ap g last, small n (omega arith), total-le g n (λ j q. small j (omega arith)))
  | no earlier ↦
      total-full g n (λ j q. small j (omega arith))
        (omega (arith, small n (omega arith), total-le g n (λ j q. small j (omega arith)))) i
        (omega arith)
]

pub total-const :
    (g : ℕ → ℕ) (c n : ℕ)
    → ((i : ℕ) → i < n → g i ≡ c)
    → c ≤ 1
    → total g n ≡ (if c == 1 then n else 0)
unfolding total
total-const g c zero same small = ground arith
total-const g c (suc n) same small =
    ground (arith, total-const g c n (λ i p. same i (omega arith)) small, same n)

-- A member is at most the sum.
pub le-total : (g : ℕ → ℕ) (n i : ℕ) → i < n → g i ≤ total g n
unfolding total
le-total g zero i p = absurd (omega arith)
le-total g (suc n) i p = elim (ℕ_discrete i n) [
  | yes last ↦ omega (arith, ap g last)
  | no earlier ↦ omega (arith, le-total g n i (omega arith))
]

-- A positive sum has a positive member.
pub total-pos : (g : ℕ → ℕ) (n : ℕ) → 0 < total g n → (i : ℕ) × (i < n) × (0 < g i)
unfolding total
total-pos g zero p = absurd (omega arith)
total-pos g (suc n) p = elim (dec_lt 0 (g n)) [
  | yes here ↦ (n, omega arith, here)
  | no none_here ↦ let (i, q, r) = total-pos g n (omega arith) in (i, omega arith, r)
]
