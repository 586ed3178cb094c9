-- ===== src/Prelude/Family.antt =====
-- Arrays and families of threads as functions of an index.
use Prim.Native.Nat.{ℕ, ◌+◌}
use lace.Prelude.Tests.{◌==◌, if◌then◌else◌}

abbrev pub update {ℓ} : {A : Type ℓ} → (ℕ → A) → ℕ → A → ℕ → A
update f i a j = if i == j then a else f j

-- f[i]++
abbrev pub bump : (ℕ → ℕ) → ℕ → ℕ → ℕ
bump f i = update f i (f i + 1)
