-- ===== src/Victim/Trng.antt =====
-- src/lace.h, `LACE_TRNG`: the random numbers of a worker.
use lace.Prelude.{ℕ, ◌+◌, ◌*◌, ◌^◌, ◌<◌, ◌≡◌, ap, sym, ◌∙◌, u64, sub64, arith}

-- `__lace_worker->rng` after the next `LACE_TRNG`, which is also the number.
unfoldable pub trng : (rng : ℕ) → ℕ
trng rng = u64 (u64 (2862933555777941757 * rng) + 3037000493)

-- The number before it: the factor is the inverse of the multiplier.
abbrev before : ℕ → ℕ
before r = u64 (16133697096952638549 * sub64 r 3037000493)

before-trng : (rng : ℕ) → rng < 2 ^ 64 → before (trng rng) ≡ rng
unfolding trng
before-trng rng small = omega arith

-- Two states of a worker that give the same number are the same.
pub trng-injective : (r s : ℕ) → r < 2 ^ 64 → s < 2 ^ 64 → trng r ≡ trng s → r ≡ s
trng-injective r s p q e = sym (before-trng r p) ∙ ap before e ∙ before-trng s q
