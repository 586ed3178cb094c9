-- ===== src/Deque/Frame/Invariant.antt =====
-- Inside a frame nothing below its bottom is touched.
use lace.Prelude.{
  ℕ, suc, ◌^◌, ◌≤◌, ◌<◌, ◌≡◌, ◌≢◌, refl, sym, subst, if_elim, Bool, ◌&&◌, ltb, ◌==◌, if_both, arith,
  List, [], ◌∷◌,
}
use lace.Deque.State.{
  OwnerPc, ready, mending, Command, spawn, sync_next, drop_next, land, share, Pop, sync, drop,
  System, ThiefPc, loaded,
}
use lace.Deque.Owner.{
  goto, base, own, owner_at, command, spawn_task, pop_task, land_on, share_all, spawn_publish,
  settle, pop_fast, discard, shrink_load, shrink_check, sync_regrow, leap_with, is_completed,
}
use lace.Deque.Steal.{steal_at, same, goto as thief_goto}
use lace.Deque.Invariant.{Loads}
use lace.Deque.Value.Frame.{top}
use lace.Deque.Frame.{root_step}

-- The stolen tasks that are waited for stand at `b` or above.
abbrev pub Above : ℕ → List ℕ → Type 0
Above b [] = Unit
Above b (h ∷ r) = (b ≤ h) × Above b r

-- A split point that is about to be stored.
abbrev pub Pending : OwnerPc → Type 0
Pending (mending k n) = n < 2 ^ 32
Pending _ = Unit

pub record Inside (b : ℕ) (s : System) : Type 0 where
  pub small : s.w.end < 2 ^ 31
  pub low : b ≤ s.head
  pub high : top s.at s.head ≤ s.w.end
  pub pins : Above b s.pins
  pub tail : b ≤ s.wt.ts.tail
  pub split : s.wt.ts.split < 2 ^ 32
  pub pending : Pending s.at
  pub loads : Loads s.pc

module _ {b : ℕ} {s : System} (inside : Inside b s) where
  land_on-Inside : (l : List ℕ) → Above b l → s.at ≡ ready → Inside b (land_on l s)
  unfolding land_on
  land_on-Inside [] above at = inside
  land_on-Inside (h ∷ r) above at =
      if_both (Inside b) (s.head == suc h && is_completed (s.thief h))
        (λ e. record {
          small = inside.small;
          low = above.0;
          high = ground (arith, inside.high);
          pins = above.1;
          tail = inside.tail;
          split = inside.split;
          pending = tt;
          loads = inside.loads;
        })
        (λ e. inside)

  share_all-Inside : s.at ≡ ready → Inside b (share_all s)
  unfolding share_all
  share_all-Inside at =
      if_elim (Inside b) (s.w.split == s.head) _ _ (λ e. inside)
        (λ e. record {
          small = inside.small;
          low = inside.low;
          high = inside.high;
          pins = inside.pins;
          tail = inside.tail;
          split = omega arith;
          pending = inside.pending;
          loads = inside.loads;
        })

  spawn_task-Inside : s.at ≡ ready → Inside b (spawn_task s)
  unfolding spawn_task goto
  spawn_task-Inside at =
      if_both (Inside b) (s.head == s.w.end)
        (λ e. record {
          small = inside.small;
          low = inside.low;
          high = ground (arith, inside.high);
          pins = inside.pins;
          tail = inside.tail;
          split = inside.split;
          pending = tt;
          loads = inside.loads;
        })
        (λ e. record {
          small = inside.small;
          low = inside.low;
          high = ground (arith, inside.high);
          pins = inside.pins;
          tail = inside.tail;
          split = inside.split;
          pending = tt;
          loads = inside.loads;
        })

  pub program : Unit {0}
  unfolding owner_at goto spawn_publish settle pop_fast discard shrink_load shrink_check sync_regrow
      leap_with
  program = tt

  -- Every access but those of a command.
  later-Inside : (c : Command) (p : OwnerPc) → s.at ≡ p → p ≢ ready → Inside b (owner_at c p s)
  unfolding program
  later-Inside c ready at ne = absurd (ne refl)
  later-Inside c p at ne = record {
    small = ground (arith, inside.small);
    low = ground (arith, inside.low);
    high = ground (arith, inside.high);
    pins = ground (arith, inside.pins, inside.low);
    tail = ground (arith, inside.tail, inside.low, inside.high, inside.small);
    split = ground (arith, inside.split, inside.pending);
    pending = ground arith;
    loads = λ k ts e. inside.loads k ts (ground arith);
  }

  pop_task-Inside : (k : Pop) → s.at ≡ ready → b < s.head → Inside b (pop_task k s)
  unfolding pop_task
  pop_task-Inside k at more =
      if_both (Inside b) (ltb (base s.pins) s.head)
        (λ e. record {
          small = inside.small;
          low = omega arith;
          high = ground (arith, inside.high);
          pins = inside.pins;
          tail = inside.tail;
          split = inside.split;
          pending = tt;
          loads = inside.loads;
        })
        (λ e. inside)

  -- The root task works above the bottom of its frame.
  pub root_step-Inside : (c : Command) (p : OwnerPc) → s.at ≡ p → Inside b (root_step b c p s)
  unfolding root_step own
  root_step-Inside spawn ready at =
      subst (λ p. Inside b (owner_at spawn p s)) (sym at)
        (unfold owner_at in unfold command in spawn_task-Inside at)
  root_step-Inside share ready at =
      subst (λ p. Inside b (owner_at share p s)) (sym at)
        (unfold owner_at in unfold command in share_all-Inside at)
  root_step-Inside c ready at =
      if_both (Inside b) (s.head == b) (λ e. inside)
        (λ e.
          subst (λ p. Inside b (owner_at c p s)) (sym at)
            (unfold owner_at in by_command c (ground (arith, inside.low))))
    where
      by_command : (c : Command) → b < s.head → Inside b (command c s)
      by_command spawn more = unfold command in spawn_task-Inside at
      by_command sync_next more = unfold command in pop_task-Inside sync at more
      by_command drop_next more = unfold command in pop_task-Inside drop at more
      by_command share more = unfold command in share_all-Inside at
      by_command land more = unfold command in land_on-Inside s.pins inside.pins at
  root_step-Inside c p at =
      subst (λ q. Inside b (owner_at c q s)) (sym at) (later-Inside c p at (λ e. ground arith))

  raised : (luck : Bool) (k : ℕ) (p : ThiefPc) → s.pc k ≡ p → b ≤ (steal_at luck k p s).wt.ts.tail
  unfolding steal_at thief_goto same
  raised luck k (loaded ts) at = ground (arith, inside.tail, inside.loads k ts at, inside.split)
  raised luck k p at = ground (arith, inside.tail)

  -- A thief raises the tail at most to the split point.
  pub steal_at-Inside :
      (luck : Bool) (k : ℕ) (p : ThiefPc) → s.pc k ≡ p → Inside b (steal_at luck k p s)
  unfolding steal_at thief_goto same
  steal_at-Inside luck k p at = record {
    small = ground (arith, inside.small);
    low = ground (arith, inside.low);
    high = ground (arith, inside.high);
    pins = ground (arith, inside.pins);
    tail = raised luck k p at;
    split = ground (arith, inside.split);
    pending = ground (arith, inside.pending);
    loads = λ j ts e. ground (arith, inside.loads j ts);
  }
