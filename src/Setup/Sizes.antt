-- ===== src/Setup/Sizes.antt =====
-- Sizes and offsets are multiples of a cache line, and large enough.
use Prim.Native.Nat.{bit_and, bit_and-bitwise, digits, min}
use native.Mathlib.Nat.{mul_right_comm}
use lace.Prelude.{
  ℕ, zero, suc, ◌+◌, ◌-◌, ◌*◌, ◌/◌, ◌%◌, ◌^◌, ◌≤◌, ◌<◌, ◌≡◌, refl, sym, arith, u64, ap, ◌∙◌,
}
use lace.Setup.{pad, to_allocate, private_offset, deque_offset, workers_memory_size}

-- `bit_and` goes through the digits of its first argument; that many steps are enough.
one_step_more :
    (n a b : ℕ) → a ≤ n → digits (λ _. zero) min (suc n) a b ≡ digits (λ _. zero) min n a b
one_step_more zero zero b few = refl
one_step_more zero (suc a) b few = absurd (omega arith)
one_step_more (suc n) zero b few = refl
one_step_more (suc n) (suc a) b few =
    omega (arith, one_step_more n (suc a / 2) (b / 2) (omega arith))

more_steps : (k a b : ℕ) → digits (λ _. zero) min (k + a) a b ≡ digits (λ _. zero) min a a b
more_steps zero a b = let e : 0 + a ≡ a = omega arith in ap (λ m. digits (λ _. zero) min m a b) e
more_steps (suc k) a b =
    let e : suc k + a ≡ suc (k + a) = omega arith in
    ap (λ m. digits (λ _. zero) min m a b) e
    ∙ one_step_more (k + a) a b (omega arith)
    ∙ more_steps k a b

enough_steps : (n a b : ℕ) → a ≤ n → digits (λ _. zero) min n a b ≡ bit_and a b
enough_steps n a b few =
    ap (λ m. digits (λ _. zero) min m a b) (omega arith)
    ∙ more_steps (n - a) a b
    ∙ sym (bit_and-bitwise a b)

-- The lowest digit.
lowest : (a b : ℕ) → bit_and a b ≡ bit_and (a / 2) (b / 2) * 2 + min (a % 2) (b % 2)
lowest zero b = omega (arith, bit_and-bitwise 0 b, bit_and-bitwise 0 (b / 2))
lowest (suc a) b =
    omega (arith, bit_and-bitwise (suc a) b, enough_steps a (suc a / 2) (b / 2) (omega arith))

-- A word of `k` ones masks nothing of a smaller one.
ones : (k : ℕ) → ℕ
ones zero = 0
ones (suc k) = ones k * 2 + 1

bit_and-ones : (k a : ℕ) → a ≤ ones k → bit_and a (ones k) ≡ a
unfolding ones
bit_and-ones zero a small =
    omega (arith, bit_and-bitwise 0 0, ap (λ a. bit_and a 0) (zero_is a small))
  where
    zero_is : (a : ℕ) → a ≤ 0 → a ≡ 0
    zero_is a p = omega arith
bit_and-ones (suc k) a small = omega (
  arith,
  lowest a (ones k * 2 + 1),
  bit_and-ones k (a / 2) (omega arith),
  ap (bit_and (a / 2)) (half (ones k)),
)
  where
    half : (o : ℕ) → (o * 2 + 1) / 2 ≡ o
    half o = omega arith

masked_out : (n x : ℕ) → x ≤ n → bit_and x 0 ≡ 0
masked_out zero x few = let e : x ≡ 0 = omega arith in ap (λ y. bit_and y 0) e ∙ bit_and-bitwise 0 0
masked_out (suc n) x few = omega (arith, lowest x 0, masked_out n (x / 2) (omega arith))

-- The six lowest digits, kept and cleared.
keep_low : (a : ℕ) → bit_and a 63 ≡ a % 64
keep_low a = omega (
  arith,
  lowest a 63,
  lowest (a / 2) 31,
  lowest (a / 2 / 2) 15,
  lowest (a / 2 / 2 / 2) 7,
  lowest (a / 2 / 2 / 2 / 2) 3,
  lowest (a / 2 / 2 / 2 / 2 / 2) 1,
  masked_out (a / 2 / 2 / 2 / 2 / 2 / 2) (a / 2 / 2 / 2 / 2 / 2 / 2) (omega arith),
)

clear_low : (a : ℕ) → a < 2 ^ 64 → bit_and a (2 ^ 64 - 64) ≡ a / 64 * 64
unfolding ones
clear_low a small = omega (
  arith,
  lowest a (2 ^ 64 - 64),
  lowest (a / 2) (2 ^ 63 - 32),
  lowest (a / 2 / 2) (2 ^ 62 - 16),
  lowest (a / 2 / 2 / 2) (2 ^ 61 - 8),
  lowest (a / 2 / 2 / 2 / 2) (2 ^ 60 - 4),
  lowest (a / 2 / 2 / 2 / 2 / 2) (2 ^ 59 - 2),
  bit_and-ones 58 (a / 2 / 2 / 2 / 2 / 2 / 2) (omega arith),
)

pad-lt : (x : ℕ) → (pad x < 64) × ((x + pad x) % 64 ≡ 0)
unfolding pad
pad-lt x = (omega (arith, keep_low (64 - x % 64)), omega (arith, keep_low (64 - x % 64)))

-- `to_allocate` is a multiple of a cache line that holds a pointer for each of fewer than 2 ^ 32
-- workers, with less than a cache line to spare.
pub workers_array_fits :
    (n : ℕ)
    → n < 2 ^ 32
    → (to_allocate n % 64 ≡ 0) × (n * 8 ≤ to_allocate n) × (to_allocate n < n * 8 + 64)
unfolding to_allocate
workers_array_fits n small =
    let cleared = clear_low (n * 8 + 63) (omega arith) in
    let is : u64 (u64 (u64 (n * 8) + 64) + 2 ^ 64 - 1) ≡ n * 8 + 63 = omega arith in
    let bytes = ap (λ x. bit_and x (2 ^ 64 - 64)) is in
    (omega (arith, bytes, cleared), omega (arith, bytes, cleared), omega (arith, bytes, cleared))

-- For any sizes of `Worker` and `WorkerP`, a `Task` of some cache lines and a number of tasks for
-- which the sum of the sizes is below 2 ^ 64: the private data and the deque of a worker begin at
-- cache lines, after what stands before them, the size that is allocated is a multiple of a cache
-- line, as `aligned_alloc` asks for, and is that of all tasks with what stands before them.
pub worker_memory_fits :
    (worker worker_p lines dqsize : ℕ)
    → deque_offset worker worker_p + lines * 64 * dqsize < 2 ^ 64
    → (private_offset worker % 64 ≡ 0)
      × (worker ≤ private_offset worker)
      × (deque_offset worker worker_p % 64 ≡ 0)
      × (private_offset worker + worker_p ≤ deque_offset worker worker_p)
      × (workers_memory_size (deque_offset worker worker_p) (lines * 64) dqsize % 64 ≡ 0)
      × (deque_offset worker worker_p + lines * 64 * dqsize
          ≡ workers_memory_size (deque_offset worker worker_p) (lines * 64) dqsize)
unfolding workers_memory_size deque_offset private_offset
worker_memory_fits worker worker_p lines dqsize fits =
    let first = pad-lt worker in
    let second = pad-lt worker_p in
    let regroup : lines * 64 * dqsize ≡ lines * dqsize * 64 = mul_right_comm lines 64 dqsize in
    (
      first.1,
      omega arith,
      omega (arith, first.1, second.1),
      omega arith,
      omega (arith, first.1, second.1, regroup, fits),
      omega (arith, fits),
    )
