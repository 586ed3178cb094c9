-- ===== src/Deque/Safety.antt =====
-- What holds after any interleaving of the owner and the thieves of a deque.
use lace.Prelude.{
  ℕ, ◌+◌, ◌^◌, ◌≤◌, ◌<◌, ◌≡◌, ◌≢◌, ◌⊎◌, inl, inr, sym, subst, List, [], ◌∷◌, Bool, true, false,
  some, arith,
}
use lace.Deque.State.{
  System, completed, OwnerPc, ready, spawning, taking, landed, clearing, spinning,
}
use lace.Deque.Interleaving.{init_worker, Move, run}
use lace.Deque.Slots.{claim, Taken, Slots, Slots-take, Slots-clear, Slots-done}
use lace.Deque.Invariant.{Inv, InvAt, Shape, Chain, bound, run-Inv}
use lace.Deque.Owner.{base}

-- The invariant, at the point where the owner is known to stand.
at_point : {p : OwnerPc} {s : System} → s.at ≡ p → Inv s → InvAt p s
at_point {s} here inv = subst (λ q. InvAt q s) here inv

bound-le-end :
    (p : OwnerPc) (a : Bool) (t s w h e : ℕ) → Shape p a t s w h e → (bound p h ≤ e) × (h ≤ e)
bound-le-end ready a t s w h e sh = omega arith
bound-le-end _ a t s w h e sh = omega arith

in_array : {s : System} {i : ℕ} → Inv s → i < bound s.at s.head → i < s.w.end
in_array {s} inv low = omega (arith, (bound-le-end s.at _ _ _ _ _ _ inv.shape).0)

pub head-le-end : {s : System} → Inv s → s.head ≤ s.w.end
head-le-end {s} inv = (bound-le-end s.at _ _ _ _ _ _ inv.shape).1

-- The stolen tasks that the owner waits for in `lace_leapfrog`.
abbrev pub IsAmong : ℕ → List ℕ → Type 0
IsAmong i [] = ⊥
IsAmong i (h ∷ r) = (i ≡ h) ⊎ IsAmong i r

-- The owner waits for the task in slot `i`: at the head, until its thief has stored itself, or among
-- `pins`, until it is done.
abbrev pub IsWaitedFor : ℕ → System → Type 0
IsWaitedFor i s = (s.at ≡ spinning) × (i ≡ s.head) ⊎ IsAmong i s.pins

among_below : (pins : List ℕ) (i : ℕ) → Chain pins → IsAmong i pins → i < base pins
among_below [] i chain no_one = absurd no_one
among_below (h ∷ r) i chain (inl here) = omega (arith, here)
among_below (h ∷ r) i chain (inr deeper) = omega (arith, chain.0, among_below r i chain.1 deeper)

head-le-bound : (p : OwnerPc) (h : ℕ) → h ≤ bound p h
head-le-bound p h = ground arith

module _ (l : List Move) (dqsize : ℕ) (small : dqsize < 2 ^ 31) where
  abbrev final : System
  final = run l (init_worker dqsize)

  -- However the owner and any number of thieves interleave, no spawned task is started twice.
  pub run_at_most_once : (n : ℕ) → final.runs n ≤ 1
  run_at_most_once = (run-Inv l dqsize small).slots.once

  -- No task is lost: each spawned task was started exactly once, or is still in a slot in use, or
  -- was discarded by `DROP`; and a discarded task was never started.
  pub no_task_lost :
      (n : ℕ)
      → n < final.spawned
      → ((final.runs n ≡ 1)
          ⊎ ((i : ℕ) × (i < bound final.at final.head) × (final.f i ≡ n))
          ⊎ (final.dropped n ≡ true))
        × (final.dropped n ≡ true → final.runs n ≡ 0)
  no_task_lost n born = (sl.kept n born, λ d. (sl.discarded n d).1)
    where
      sl :
          Slots final.wt.ts.tail
            (bound final.at final.head)
            final.thief
            final.f
            final.pc
            final.spawned
            final.runs
            final.dropped
      sl = (run-Inv l dqsize small).slots

  -- Where the owner is about to execute the task at its head itself, that task was not started, no
  -- thief holds its slot, and the slot lies at or above the tail and the split point, so that no
  -- thief can win it.
  pub owner_takes_its_own :
      final.at ≡ taking
      → (final.runs (final.f final.head) ≡ 0)
        × ((k : ℕ) → claim (final.pc k) ≢ some final.head)
        × (final.wt.ts.tail ≤ final.wt.ts.split)
        × (final.wt.ts.split ≤ final.head)
  owner_takes_its_own here = (
    (Slots-take inv.slots (omega arith) low).0,
    (λ k c. absurd (omega (arith, (inv.slots.held k final.head c).0, low))),
    ground (arith, inv.shape),
    ground (arith, inv.shape),
  )
    where
      inv : InvAt taking final
      inv = at_point here (run-Inv l dqsize small)

      low : final.wt.ts.tail ≤ final.head
      low = ground (arith, inv.shape)

  -- Where `lace_leapfrog` ends, the task at the head was started exactly once, by a thief that is
  -- done with it, and no thief holds its slot.
  pub leapfrog_waits_for_the_thief :
      final.at ≡ clearing
      → (final.runs (final.f final.head) ≡ 1)
        × (final.thief final.head ≡ completed)
        × ((k : ℕ) → claim (final.pc k) ≢ some final.head)
  leapfrog_waits_for_the_thief here = (
    (Slots-clear inv.slots (omega arith) (ground (arith, inv.shape)) inv.at_head).0,
    inv.at_head,
    Slots-done inv.slots inv.at_head,
  )
    where
      inv : InvAt clearing final
      inv = at_point here (run-Inv l dqsize small)

  -- Two calls of `lace_steal` never hold the same slot, and the slot that a call holds lies below
  -- the tail and inside the array.
  pub thieves_exclusive :
      (j k i : ℕ)
      → claim (final.pc j) ≡ some i
      → claim (final.pc k) ≡ some i
      → (j ≡ k) × (i < final.wt.ts.tail) × (i < final.w.end)
  thieves_exclusive j k i cj ck = (
    (run-Inv l dqsize small).slots.unique j k i cj ck,
    ((run-Inv l dqsize small).slots.held j i cj).0,
    in_array (run-Inv l dqsize small) ((run-Inv l dqsize small).slots.held j i cj).1,
  )

  -- The assumption in `lace_leapfrog`, "tail = split = head (pre-pop)": where its loop has ended
  -- and the owner's `allstolen` is 0, the tail, both split points and the old head are equal.
  pub leapfrog_assumption :
      final.at ≡ landed
      → final.w.allstolen ≡ false
      → (final.wt.ts.tail ≡ final.head + 1)
        × (final.wt.ts.split ≡ final.head + 1)
        × (final.w.split ≡ final.head + 1)
  leapfrog_assumption here live = ground (arith, inv.shape)
    where
      inv : InvAt landed final
      inv = at_point here (run-Inv l dqsize small)

  -- The thief of the stolen task in slot `i` is done with it, or some call of `lace_steal` holds it.
  abbrev pub IsAttended : ℕ → Type 0
  IsAttended i = (final.thief i ≡ completed) ⊎ ((k : ℕ) × (claim (final.pc k) ≡ some i))

  attended : (i : ℕ) → Taken final.pc i (final.thief i) (final.runs (final.f i)) → IsAttended i
  attended i (inl fact) = inl fact.0
  attended i (inr holder) = inr holder

  -- Each stolen task that the owner waits for, until its thief has stored itself or until it is done,
  -- in any of the nested calls of `lace_leapfrog`: some call of `lace_steal` holds it, or it is done.
  pub stolen_task_has_a_thief : (i : ℕ) → IsWaitedFor i final → IsAttended i
  stolen_task_has_a_thief i (inl (here, at_head)) =
      let inv = at_point here (run-Inv l dqsize small) in
      attended i (
        subst (λ h. Taken final.pc h (final.thief h) (final.runs (final.f h))) (sym at_head)
          (inv.slots.covered final.head (ground (arith, inv.shape)) (omega arith)))
  stolen_task_has_a_thief i (inr waits) =
      let low = among_below final.pins i (run-Inv l dqsize small).chain waits in
      attended i (
        (run-Inv l dqsize small).slots.covered i
          (omega (arith, low, (run-Inv l dqsize small).below))
          (omega (arith, low, (run-Inv l dqsize small).below, head-le-bound final.at final.head)))

  -- The head never passes the end of the array; where a new task has been written, the head is
  -- inside it.
  pub head_in_array : (final.head ≤ final.w.end) × (final.at ≡ spawning → final.head < final.w.end)
  head_in_array = (
    head-le-end (run-Inv l dqsize small),
    λ here. ground (arith, (at_point here (run-Inv l dqsize small)).shape),
  )
