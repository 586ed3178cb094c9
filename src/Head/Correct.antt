-- ===== src/Head/Correct.antt =====
-- `lace_get_head` returns the head when the slots in use are the first ones.
use lace.Prelude.{
  ℕ, zero, suc, ◌+◌, ◌-◌, ◌*◌, ◌/◌, ◌^◌, ◌≤◌, ◌<◌, ◌≡◌, ◌⊎◌, true, false, none, some, leb,
  Bool-cases, inl, inr, u64, arith,
}
use lace.Deque.State.{Thief}
use lace.Head.{is_empty, double, zoom, zoom_in, get_head}

-- Exactly the slots below `head` are in use.
pub record IsPrefix (dq : ℕ → Thief) (head size : ℕ) : Type 0 where
  pub within : head ≤ size
  pub used : (i : ℕ) → i < head → is_empty (dq i) ≡ false
  pub free : (i : ℕ) → head ≤ i → i < size → is_empty (dq i) ≡ true

module _ {dq : ℕ → Thief} {head size : ℕ} (pre : IsPrefix dq head size) where
  open pre use {within, used, free}

  zoom-eq :
      (fuel low high : ℕ)
      → low ≤ head
      → head ≤ high
      → high ≤ size
      → high - low < fuel
      → zoom fuel dq low high ≡ some head
  unfolding zoom
  zoom-eq zero low high a b c d = absurd (omega arith)
  zoom-eq (suc fuel) low high a b c d = ground (
    arith,
    used (low + (high - low) / 2),
    free (low + (high - low) / 2),
    zoom-eq fuel low (low + (high - low) / 2),
    zoom-eq fuel (low + (high - low) / 2 + 1) high,
  )

  -- The search goes on between a slot in use and the end or a free slot.
  double-eq :
      (fuel low : ℕ)
      → 2 ≤ low
      → low < head
      → size < 2 ^ 63
      → size - low < fuel
      → (low' : ℕ) × (high : ℕ) × (double fuel dq low size ≡ some (low', high))
        × (low' < head)
        × (head ≤ high)
        × (high ≤ size)
  unfolding double
  double-eq zero low a b c d = absurd (omega arith)
  double-eq (suc fuel) low a b c d = elim (Bool-cases (leb size (u64 (low * 2)))) [
    | inl done ↦ (low, size, rw done, b, within, omega arith)
    | inr more ↦ elim (Bool-cases (is_empty (dq (u64 (low * 2))))) [
      | inl hit ↦ (
        low,
        u64 (low * 2),
        rw (more, hit),
        b,
        ground (arith, used (u64 (low * 2))),
        ground arith,
      )
      | inr on ↦
          rw (more, on)
            (double-eq fuel (u64 (low * 2)) (omega arith) (ground (arith, free (u64 (low * 2)))) c
              (omega arith))
    ]
  ]

  search_eq :
      (fuel : ℕ)
      → size < fuel
      → 4 ≤ head
      → size < 2 ^ 63
      → zoom_in fuel dq (double fuel dq 2 size) ≡ some head
  unfolding zoom_in
  search_eq fuel enough least small =
      let (low, high, e, a, b, c) =
        double-eq fuel 2 (omega arith) (omega arith) small (omega arith) in
      rw e (zoom-eq fuel low high (omega arith) b c (omega arith))

  pub get_head-eq-head :
      (fuel : ℕ)
      → size < fuel
      → (head < size) ⊎ (4 ≤ size)
      → size < 2 ^ 63
      → get_head fuel dq size ≡ some head
  unfolding get_head
  get_head-eq-head fuel enough room small =
      ground (
        arith,
        used 0,
        free 0,
        used 1,
        free 1,
        used 2,
        free 2,
        used 3,
        free 3,
        search_eq fuel enough,
      )

  -- Where all slots of an array of at most three are in use, `lace_get_head` reads beyond it.
  pub get_head_beyond : (fuel : ℕ) → size ≤ 3 → head ≡ size → get_head fuel dq size ≡ none
  unfolding get_head
  get_head_beyond fuel few full = ground (arith, used 0, used 1, used 2)
