-- ===== src/Setup/Pinning.antt =====
-- Workers are pinned to different logical processors while there are enough.
use native.Mathlib.Nat.{div-add-mod, mod-lt}
use lace.Prelude.{
  ℕ, zero, suc, ◌+◌, ◌*◌, ◌/◌, ◌%◌, ◌<◌, ◌≡◌, ◌≢◌, refl, arith, some, List, [], ◌∷◌, sym, ap, ◌∙◌,
}
use lace.Setup.{count, nth, core, pu_index, pin_worker}

-- A processor belongs to one core, and a set names it once.
abbrev pub IsPartition : (n_cores : ℕ) (cpuset : ℕ → List ℕ) → Type 0
IsPartition n_cores cpuset =
    (c d i j p : ℕ)
    → c < n_cores
    → d < n_cores
    → nth (cpuset c) i ≡ some p
    → nth (cpuset d) j ≡ some p
    → (c ≡ d) × (i ≡ j)

nth_found : (l : List ℕ) (i : ℕ) → i < count l → (p : ℕ) × (nth l i ≡ some p)
nth_found [] i q = absurd (omega arith)
nth_found (p ∷ l) zero q = (p, refl)
nth_found (p ∷ l) (suc i) q = nth_found l i (omega arith)

-- On a machine each of whose cores has processors, each worker is pinned to one of them.
pub pin_total :
    (n_cores : ℕ) (cpuset : ℕ → List ℕ) (w : ℕ)
    → 0 < n_cores
    → ((c : ℕ) → c < n_cores → 0 < count (cpuset c))
    → (p : ℕ) × (pin_worker n_cores cpuset w ≡ some p)
unfolding pin_worker
pin_total n_cores cpuset w some_core some_pu =
    let found =
      nth_found (cpuset (w % n_cores)) (pu_index n_cores (cpuset (w % n_cores)) w)
        (index_lt (cpuset (w % n_cores)) (some_pu (w % n_cores) (mod-lt w some_core))) in
    (found.0, ground (arith, found.1, some_pu (w % n_cores) (mod-lt w some_core)))
  where
    index_lt : (l : List ℕ) → 0 < count l → pu_index n_cores l w < count l
    index_lt l q = ground (arith, mod-lt (w / n_cores) q)

pinned_together :
    (n_cores : ℕ) (cpuset : ℕ → List ℕ) (v w p : ℕ)
    → 0 < n_cores
    → IsPartition n_cores cpuset
    → v / n_cores < count (cpuset (core n_cores v))
    → w / n_cores < count (cpuset (core n_cores w))
    → pin_worker n_cores cpuset v ≡ some p
    → pin_worker n_cores cpuset w ≡ some p
    → v ≡ w
unfolding pin_worker
pinned_together n_cores cpuset v w p some_core parts fits_v fits_w at_v at_w =
    let same =
      parts (v % n_cores) (w % n_cores) (v / n_cores) (w / n_cores) p (mod-lt v some_core)
        (mod-lt w some_core) (ground (arith, fits_v, at_v)) (ground (arith, fits_w, at_w)) in
    sym (div-add-mod v n_cores)
    ∙ ap (λ q. n_cores * q + v % n_cores) same.1
    ∙ ap (λ r. n_cores * (w / n_cores) + r) same.0
    ∙ div-add-mod w n_cores

-- On a machine where a processor belongs to one core and is listed there once: two different workers
-- that both fit, that is whose cores have more processors than there were rounds of workers before
-- theirs, are pinned to different processors.
pub pinned_apart :
    (n_cores : ℕ) (cpuset : ℕ → List ℕ) (v w p q : ℕ)
    → 0 < n_cores
    → IsPartition n_cores cpuset
    → v / n_cores < count (cpuset (core n_cores v))
    → w / n_cores < count (cpuset (core n_cores w))
    → pin_worker n_cores cpuset v ≡ some p
    → pin_worker n_cores cpuset w ≡ some q
    → v ≢ w
    → p ≢ q
pinned_apart n_cores cpuset v w p q some_core parts fits_v fits_w at_v at_w differ same = differ (
    pinned_together n_cores cpuset v w p some_core parts fits_v fits_w at_v
      (at_w ∙ ap some (sym same)))
