-- ===== src/Head.antt =====
-- src/lace.c, `lace_get_head`: the first slot of the deque whose `thief` is THIEF_EMPTY, found by
-- four reads, doubling, and a binary search.
pub mod Correct
use lace.Prelude.{
  ℕ, zero, suc, ◌+◌, ◌-◌, ◌*◌, ◌/◌, Bool, true, false, Option, none, some, ltb, leb, ◌==◌,
  if◌then◌else◌, u64,
}
use lace.Deque.State.{Thief}

unfoldable pub is_empty : Thief → Bool
is_empty Thief.empty = true
is_empty _ = false

-- The `for (;;)` over `low` and `high`. `none`: the fuel ran out, or a read beyond the array.
unfoldable pub double : (fuel : ℕ) → (ℕ → Thief) → (low high : ℕ) → Option (ℕ × ℕ)
unfolding is_empty
double zero dq low high = none
double (suc fuel) dq low high =
    let further = double fuel dq (u64 (low * 2)) high in
    if leb high (u64 (low * 2))
    then some (low, high)
    else if is_empty (dq (u64 (low * 2)))
    then some (low, u64 (low * 2))
    else further

-- The `while (low < high)`.
unfoldable pub zoom : (fuel : ℕ) → (ℕ → Thief) → (low high : ℕ) → Option ℕ
unfolding is_empty
zoom zero dq low high = none
zoom (suc fuel) dq low high =
    let mid = low + (high - low) / 2 in
    let left = zoom fuel dq low mid in
    let right = zoom fuel dq (mid + 1) high in
    if ltb low high then (if is_empty (dq mid) then left else right) else some low

unfoldable pub zoom_in : (fuel : ℕ) → (ℕ → Thief) → Option (ℕ × ℕ) → Option ℕ
zoom_in fuel dq none = none
zoom_in fuel dq (some (low, high)) = zoom fuel dq low high

-- `size` is `self->end - self->dq`. The first reads do not look at it: beyond the array they are a
-- fault.
unfoldable pub get_head : (fuel : ℕ) → (ℕ → Thief) → (size : ℕ) → Option ℕ
unfolding is_empty zoom_in
get_head fuel dq size =
    if size == 0
    then none
    else if is_empty (dq 0)
    then some 0
    else if size == 1
    then none
    else if is_empty (dq 1)
    then some 1
    else if size == 2
    then none
    else if is_empty (dq 2)
    then some 2
    else if size == 3
    then none
    else if is_empty (dq 3)
    then some 3
    else zoom_in fuel dq (double fuel dq 2 size)
