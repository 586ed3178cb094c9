-- ===== src/Setup/Tests.antt =====
-- Sizes and processors at concrete machines, and instances of the theorems.
use lace.Prelude.{ℕ, zero, suc, ◌+◌, ◌*◌, ◌%◌, ◌/◌, ◌≤◌, ◌<◌, ◌≡◌, refl, arith, some, List, [], ◌∷◌}
use lace.Setup.{
  initial, configure, start_dqsize, to_allocate, private_offset, deque_offset, workers_memory_size,
  thread_stacksize, pin_worker, nth, round,
}
use lace.Setup.Sizes.{worker_memory_fits}
use lace.Setup.Pinning.{IsPartition}

ten_workers : to_allocate 10 ≡ 128
unfolding to_allocate
ten_workers = refl

round_up : (round 72 ≡ 128) × (round 64 ≡ 64)
unfolding round
round_up = (refl, refl)

-- With 0 for both, there is a worker per processor, with deques of the size before.
all_defaults :
    ((configure 8 0 0 initial).n_workers ≡ 8)
    × ((configure 8 0 0 initial).default_dqsize ≡ 100000)
    × (start_dqsize 0 initial ≡ 100000)
    × (thread_stacksize 8388608 initial ≡ 8388608)
unfolding configure start_dqsize thread_stacksize
all_defaults = (refl, refl, refl, refl)

worker_memory_fits_example :
    (private_offset 72 % 64 ≡ 0)
    × (72 ≤ private_offset 72)
    × (deque_offset 72 56 % 64 ≡ 0)
    × (private_offset 72 + 56 ≤ deque_offset 72 56)
    × (workers_memory_size (deque_offset 72 56) (1 * 64) 100000 % 64 ≡ 0)
    × (deque_offset 72 56 + 1 * 64 * 100000
        ≡ workers_memory_size (deque_offset 72 56) (1 * 64) 100000)
unfolding deque_offset
worker_memory_fits_example = worker_memory_fits 72 56 1 100000 (omega arith)

-- Two cores with two processors each.
abbrev cpuset : ℕ → List ℕ
cpuset zero = 0 ∷ 2 ∷ []
cpuset (suc zero) = 1 ∷ 3 ∷ []
cpuset (suc (suc _)) = []

four_workers :
    (pin_worker 2 cpuset 0 ≡ some 0)
    × (pin_worker 2 cpuset 1 ≡ some 1)
    × (pin_worker 2 cpuset 2 ≡ some 2)
    × (pin_worker 2 cpuset 3 ≡ some 3)
    × (pin_worker 2 cpuset 4 ≡ some 0)
unfolding pin_worker
four_workers = (refl, refl, refl, refl, refl)

abbrev place : ℕ → ℕ × ℕ
place p = (p % 2, p / 2)

place_of : (c i p : ℕ) → c < 2 → nth (cpuset c) i ≡ some p → (c ≡ (place p).0) × (i ≡ (place p).1)
place_of zero zero p q e = (ground (arith, e), ground (arith, e))
place_of zero (suc zero) p q e = (ground (arith, e), ground (arith, e))
place_of zero (suc (suc i)) p q e = absurd (ground (arith, e))
place_of (suc zero) zero p q e = (ground (arith, e), ground (arith, e))
place_of (suc zero) (suc zero) p q e = (ground (arith, e), ground (arith, e))
place_of (suc zero) (suc (suc i)) p q e = absurd (ground (arith, e))
place_of (suc (suc c)) i p q e = absurd (omega arith)

cpuset-IsPartition : IsPartition 2 cpuset
cpuset-IsPartition c d i j p q r e f =
    let at_c = place_of c i p q e in
    let at_d = place_of d j p r f in (omega (arith, at_c.0, at_d.0), omega (arith, at_c.1, at_d.1))
