-- ===== src/Deque/Invariant/Popping.antt =====
-- The owner's steps of `SYNC` and `lace_drop` that take a task back, up to `SYNC_SLOW`.
use lace.Prelude.{
  ◌+◌, ◌-◌, ◌≤◌, ◌<◌, ◌≡◌, refl, false, not, ◌&&◌, ltb, leb, arith, sym, subst, if_both,
}
use lace.Deque.State.{ready, OwnerPc, popping, System, Command, Pop, sync, drop}
use lace.Deque.Owner.{base, owner_at, pop_task, pop_fast, discard, settle}
use lace.Deque.Slots.{Slots, Slots-drop}
use lace.Deque.Invariant.Defs.{Inv, InvAt, Open, bound}

module _ {s : System} where
  pub pop_task-Inv : (k : Pop) → s.at ≡ ready → InvAt ready s → Inv (pop_task k s)
  unfolding pop_task
  pop_task-Inv k here inv =
      if_both Inv (ltb (base s.pins) s.head)
        (λ more. record {
          small = inv.small;
          shape = ground (arith, inv.shape);
          loads = inv.loads;
          agree = inv.agree;
          below = ground (arith, inv.below);
          chain = inv.chain;
          at_head = tt;
          slots =
              let e : s.head ≡ s.head - 1 + 1 = ground arith in
              subst (λ b. Slots s.wt.ts.tail b s.thief s.f s.pc s.spawned s.runs s.dropped) e
                inv.slots;
        })
        (λ none_left. subst (λ p. InvAt p s) (sym here) inv)

  -- A task that is not shared is dropped.
  discard-Inv :
      {p : OwnerPc}
      → InvAt p s
      → bound p s.head ≡ s.head + 1
      → Open s.w.allstolen s.wt.ts.tail s.wt.ts.split s.w.split s.head
      → s.head < s.w.end
      → Inv (discard s)
  unfolding discard
  discard-Inv inv b op room = record {
    small = inv.small;
    shape = ground arith;
    loads = inv.loads;
    agree = inv.agree;
    below = inv.below;
    chain = inv.chain;
    at_head = tt;
    slots = Slots-drop inv.slots (omega arith) (omega arith);
  }

  pub settle-Inv :
      (k : Pop) {p : OwnerPc}
      → InvAt p s
      → bound p s.head ≡ s.head + 1
      → Open s.w.allstolen s.wt.ts.tail s.wt.ts.split s.w.split s.head
      → s.head < s.w.end
      → Inv (settle k s)
  unfolding settle
  settle-Inv sync inv b op room = record {
    small = inv.small;
    shape = (op, room);
    loads = inv.loads;
    agree = inv.agree;
    below = inv.below;
    chain = inv.chain;
    at_head = tt;
    slots =
        subst (λ b. Slots s.wt.ts.tail b s.thief s.f s.pc s.spawned s.runs s.dropped) b inv.slots;
  }
  settle-Inv drop inv b op room = discard-Inv inv b op room

  pop_fast-Inv :
      (k : Pop)
      → InvAt (popping k) s
      → s.w.allstolen ≡ false
      → s.w.split ≤ s.head
      → Inv (pop_fast k s)
  unfolding pop_fast
  pop_fast-Inv sync inv live low = record {
    small = inv.small;
    shape = ground (arith, inv.shape);
    loads = inv.loads;
    agree = inv.agree;
    below = inv.below;
    chain = inv.chain;
    at_head = tt;
    slots = inv.slots;
  }
  pop_fast-Inv drop inv live low =
      discard-Inv inv refl (ground (arith, inv.shape)) (ground (arith, inv.shape))

module _ {s : System} where
  pub popping-Inv : (c : Command) (k : Pop) → InvAt (popping k) s → Inv (owner_at c (popping k) s)
  unfolding owner_at
  popping-Inv c k inv =
      if_both Inv (not s.wt.movesplit && leb s.w.split s.head)
        (λ fast. pop_fast-Inv k inv (ground (arith, inv.shape)) (ground arith))
        (λ other. record {
          small = inv.small;
          shape = inv.shape;
          loads = inv.loads;
          agree = inv.agree;
          below = inv.below;
          chain = inv.chain;
          at_head = tt;
          slots = inv.slots;
        })
