-- ===== src/Deque/Value/Frame.antt =====
-- Which slots an access of the owner leaves as they are.
use lace.Prelude.{
  ℕ, suc, ◌+◌, ◌≤◌, ◌<◌, ◌≡◌, ◌≢◌, ◌⊎◌, inl, inr, refl, Bool, true, false, ◌&&◌, ltb, ◌==◌, if_both,
  arith, List, [], ◌∷◌,
}
use lace.Deque.State.{
  OwnerPc, ready, overflow, Command, spawn, sync_next, drop_next, land, share, Pop, sync, drop,
  System,
}
use lace.Deque.Owner.{
  goto, base, owner_at, spawn_task, command, pop_task, land_on, share_all, spawn_publish, settle,
  pop_fast, discard, shrink_load, shrink_check, sync_regrow, leap_with, is_completed,
}
use lace.Deque.State.{ThiefPc, won, running}
use lace.Deque.Steal.{steal_at, goto as thief_goto}

-- The slots that hold a task, with one that is written and not yet counted.
abbrev pub top : OwnerPc → ℕ → ℕ
top ready head = head
top overflow head = head
top _ head = head + 1

-- From `s` to `t` no slot was written that is still in use.
pub record Keeps (s t : System) : Type 0 where
  pub more : s.spawned ≤ t.spawned
  pub lower : top t.at t.head ≤ top s.at s.head
  pub same_f : (i : ℕ) → t.f i ≡ s.f i
  pub same_thief : (i : ℕ) → i < top t.at t.head → t.thief i ≡ s.thief i

program : Unit {0}
unfolding owner_at goto command pop_task land_on spawn_publish settle pop_fast discard shrink_load
    shrink_check sync_regrow leap_with
program = tt

pub keeps :
    {s t : System}
    → s.spawned ≤ t.spawned
    → top t.at t.head ≤ top s.at s.head
    → ((i : ℕ) → t.f i ≡ s.f i)
    → ((i : ℕ) → i < top t.at t.head → t.thief i ≡ s.thief i)
    → Keeps s t
keeps m a b c = record { more = m; lower = a; same_f = b; same_thief = c }

module _ (s : System) where
  land_on-Keeps : (l : List ℕ) → s.at ≡ ready → Keeps s (land_on l s)
  unfolding land_on
  land_on-Keeps [] at = keeps (omega arith) (omega arith) (λ i. refl) (λ i p. refl)
  land_on-Keeps (h ∷ r) at =
      if_both (Keeps s) (s.head == suc h && is_completed (s.thief h))
        (λ e. keeps (ground arith) (ground arith) (λ i. refl) (λ i p. refl))
        (λ e. keeps (omega arith) (omega arith) (λ i. refl) (λ i p. refl))

  pop_task-Keeps : (k : Pop) → s.at ≡ ready → Keeps s (pop_task k s)
  unfolding pop_task
  pop_task-Keeps k at =
      if_both (Keeps s) (ltb (base s.pins) s.head)
        (λ e. keeps (ground arith) (ground arith) (λ i. refl) (λ i p. refl))
        (λ e. keeps (omega arith) (omega arith) (λ i. refl) (λ i p. refl))

  share_all-Keeps : s.at ≡ ready → Keeps s (share_all s)
  unfolding share_all
  share_all-Keeps at =
      if_both (Keeps s) (s.w.split == s.head)
        (λ e. keeps (omega arith) (omega arith) (λ i. refl) (λ i p. refl))
        (λ e. keeps (omega arith) (omega arith) (λ i. refl) (λ i p. refl))

  -- No slot is left for the task.
  pub full-Keeps : s.at ≡ ready → (s.head == s.w.end) ≡ true → Keeps s (spawn_task s)
  unfolding spawn_task goto
  full-Keeps at full =
      if_both (Keeps s) (s.head == s.w.end)
        (λ e. keeps (ground arith) (ground arith) (λ i. refl) (λ i p. refl))
        (λ e. absurd (ground arith))

  -- Every access but the one that writes a task.
  pub owner_at-Keeps :
      (c : Command) (p : OwnerPc) → s.at ≡ p → (c ≢ spawn) ⊎ (p ≢ ready) → Keeps s (owner_at c p s)
  unfolding program
  owner_at-Keeps spawn ready at (inl ne) = absurd (ne refl)
  owner_at-Keeps c ready at (inr ne) = absurd (ne refl)
  owner_at-Keeps sync_next ready at (inl ne) = pop_task-Keeps sync at
  owner_at-Keeps drop_next ready at (inl ne) = pop_task-Keeps drop at
  owner_at-Keeps land ready at (inl ne) = land_on-Keeps s.pins at
  owner_at-Keeps share ready at (inl ne) = share_all-Keeps at
  owner_at-Keeps c overflow at ne = keeps (ground arith) (ground arith) (λ i. refl) (λ i p. refl)
  owner_at-Keeps c _ at ne =
      keeps (ground arith) (ground arith) (λ i. ground arith) (λ i p. ground arith)

  -- Whether a thief's next access writes a task's `thief`.
  abbrev pub stores : ThiefPc → Bool
  stores (won _) = true
  stores (running _) = true
  stores _ = false

  pub steal_at-Keeps :
      (luck : Bool) (k : ℕ) (p : ThiefPc) → stores p ≡ false → Keeps s (steal_at luck k p s)
  unfolding steal_at thief_goto
  steal_at-Keeps luck k p e =
      keeps (ground arith) (ground arith) (λ i. ground arith) (λ i q. ground arith)
