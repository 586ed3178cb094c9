-- ===== src/Deque/Invariant/Spawning.antt =====
-- The owner's steps of `NAME_SPAWN` keep the invariant.
use lace.Prelude.{subst, sym, u32, ◌+◌, ◌≡◌, refl, false, arith, ◌==◌, if_both}
use lace.Deque.State.{
  task, ready, OwnerPc, spawning, unasking, growing, reopening, reopened, grown, System, Command,
}
use lace.Deque.Owner.{goto, owner_at, spawn_task, spawn_publish}
use lace.Deque.Slots.{Slots, Slots-write, Slots-publish}
use lace.Deque.Invariant.Defs.{Inv, InvAt, bound, Shape, AtHead}

module _ {s : System} where
  pub spawn_task-Inv : InvAt ready s → Inv (spawn_task s)
  unfolding spawn_task
  spawn_task-Inv inv =
      if_both Inv (s.head == s.w.end)
        (λ full. record {
          small = inv.small;
          shape = inv.shape;
          loads = inv.loads;
          agree = inv.agree;
          below = inv.below;
          chain = inv.chain;
          at_head = tt;
          slots = inv.slots;
        })
        (λ room. record {
          small = inv.small;
          shape = ground (arith, inv.shape);
          loads = inv.loads;
          agree = inv.agree;
          below = inv.below;
          chain = inv.chain;
          at_head = ground arith;
          slots = Slots-write inv.slots s.head task s.spawned (omega arith);
        })

  pub growing-Inv : (c : Command) → InvAt growing s → Inv (owner_at c growing s)
  unfolding owner_at
  growing-Inv c inv = record {
    small = inv.small;
    shape = ground (arith, inv.shape, inv.small);
    loads = inv.loads;
    agree = inv.agree;
    below = inv.below;
    chain = inv.chain;
    at_head = tt;
    slots =
        Slots-publish inv.slots s.wt.ts.tail inv.at_head.0 inv.at_head.1 (ground (arith, inv.shape))
          (λ i p. ((λ q. q), (λ q. q)));
  }

  push-Inv :
      InvAt spawning s
      → s.w.allstolen ≡ false
      → InvAt ready (record s { spawned = s.spawned + 1; head = s.head + 1; at = ready })
  push-Inv inv private = record {
    small = inv.small;
    shape = ground (arith, inv.shape);
    loads = inv.loads;
    agree = inv.agree;
    below = ground arith;
    chain = inv.chain;
    at_head = tt;
    slots =
        Slots-publish inv.slots s.wt.ts.tail inv.at_head.0 inv.at_head.1 (ground (arith, inv.shape))
          (λ i p. ((λ q. q), (λ q. q)));
  }

  -- `movesplit` was read, and nothing is changed.
  read-Inv :
      (p : OwnerPc)
      → InvAt spawning s
      → bound p s.head ≡ s.head
      → Shape p s.w.allstolen s.wt.ts.tail s.wt.ts.split s.w.split s.head s.w.end
      → AtHead p (s.thief s.head) (s.f s.head) s.spawned
      → InvAt p (goto p s)
  unfolding goto
  read-Inv p inv same shape at_head = record {
    small = inv.small;
    shape = shape;
    loads = inv.loads;
    agree = inv.agree;
    below = inv.below;
    chain = inv.chain;
    at_head = at_head;
    slots =
        subst (λ b. Slots s.wt.ts.tail b s.thief s.f s.pc s.spawned s.runs s.dropped) (sym same)
          inv.slots;
  }

  pub spawn_publish-Inv : InvAt spawning s → Inv (spawn_publish s)
  unfolding spawn_publish
  spawn_publish-Inv inv =
      if_both Inv s.w.allstolen
        (λ stolen.
          if_both Inv s.wt.movesplit
            (λ wanted.
              unfold goto in read-Inv unasking inv refl (ground (arith, inv.shape)) inv.at_head)
            (λ quiet.
              unfold goto in read-Inv reopening inv refl (ground (arith, inv.shape)) inv.at_head))
        (λ private.
          if_both Inv s.wt.movesplit
            (λ wanted.
              unfold goto in read-Inv growing inv refl (ground (arith, inv.shape)) inv.at_head)
            (λ quiet. push-Inv inv private))

  pub unasking-Inv : (c : Command) → InvAt unasking s → Inv (owner_at c unasking s)
  unfolding owner_at
  unasking-Inv c inv = record {
    small = inv.small;
    shape = inv.shape;
    loads = inv.loads;
    agree = inv.agree;
    below = inv.below;
    chain = inv.chain;
    at_head = inv.at_head;
    slots = inv.slots;
  }

  pub reopening-Inv : (c : Command) → InvAt reopening s → Inv (owner_at c reopening s)
  unfolding owner_at
  reopening-Inv c inv = record {
    small = inv.small;
    shape = ground (arith, inv.shape, inv.small);
    loads = inv.loads;
    agree = inv.agree;
    below = ground (arith, inv.below, inv.small, inv.shape);
    chain = inv.chain;
    at_head = tt;
    slots =
        Slots-publish inv.slots (u32 s.head) inv.at_head.0 inv.at_head.1 (ground (arith, inv.shape))
          (λ i p. ground (arith, inv.shape, inv.small));
  }

  pub reopened-Inv : (c : Command) → InvAt reopened s → Inv (owner_at c reopened s)
  unfolding owner_at
  reopened-Inv c inv = record {
    small = inv.small;
    shape = ground (arith, inv.shape, inv.small);
    loads = inv.loads;
    agree = refl;
    below = ground (arith, inv.below);
    chain = inv.chain;
    at_head = tt;
    slots = inv.slots;
  }

  pub grown-Inv : (c : Command) → InvAt grown s → Inv (owner_at c grown s)
  unfolding owner_at
  grown-Inv c inv = record {
    small = inv.small;
    shape = ground (arith, inv.shape, inv.small);
    loads = inv.loads;
    agree = inv.agree;
    below = ground (arith, inv.below);
    chain = inv.chain;
    at_head = tt;
    slots = inv.slots;
  }
