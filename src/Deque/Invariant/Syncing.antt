-- ===== src/Deque/Invariant/Syncing.antt =====
-- The owner's steps of `SYNC_SLOW` and `lace_shrink_shared` keep the invariant.
use lace.Prelude.{ℕ, ◌<◌, ◌≡◌, refl, false, ltb, arith, ◌==◌, if_both}
use lace.Deque.State.{
  shrinking, shrunk, mending, all_gone, regrow, regrowing, regrown, taking, slow, TailSplit, System,
  Command, Pop,
}
use lace.Deque.Owner.{goto, owner_at, shrink_load, shrink_check, sync_regrow}
use lace.Deque.Slots.{Slots-take}
use lace.Deque.Invariant.Defs.{Inv, InvAt}
use lace.Deque.Invariant.Popping.{settle-Inv}

module _ {s : System} where
  shrink_load-Inv :
      (k : Pop)
      → InvAt (slow k) s
      → s.w.allstolen ≡ false
      → s.head < s.w.split
      → Inv (shrink_load k s)
  unfolding shrink_load
  shrink_load-Inv k inv live high =
      if_both Inv (s.wt.ts.tail == s.wt.ts.split)
        (λ none_left. record {
          small = inv.small;
          shape = ground (arith, inv.shape);
          loads = inv.loads;
          agree = inv.agree;
          below = inv.below;
          chain = inv.chain;
          at_head = tt;
          slots = inv.slots;
        })
        (λ other. record {
          small = inv.small;
          shape = ground (arith, inv.shape);
          loads = inv.loads;
          agree = inv.agree;
          below = inv.below;
          chain = inv.chain;
          at_head = tt;
          slots = inv.slots;
        })

  pub slow-Inv : (c : Command) (k : Pop) → InvAt (slow k) s → Inv (owner_at c (slow k) s)
  unfolding owner_at
  slow-Inv c k inv =
      if_both Inv s.w.allstolen
        (λ stolen. record {
          small = inv.small;
          shape = ground (arith, inv.shape);
          loads = inv.loads;
          agree = inv.agree;
          below = inv.below;
          chain = inv.chain;
          at_head = tt;
          slots = inv.slots;
        })
        (λ live.
          if_both Inv (ltb s.head s.w.split) (λ high. shrink_load-Inv k inv live (ground arith))
            (λ low. settle-Inv k inv refl (ground (arith, inv.shape)) (ground (arith, inv.shape))))

  pub shrinking-Inv :
      (c : Command) (k : Pop) (ts : TailSplit)
      → InvAt (shrinking k ts) s
      → Inv (owner_at c (shrinking k ts) s)
  unfolding owner_at
  shrinking-Inv c k ts inv = record {
    small = inv.small;
    shape = ground (arith, inv.shape, inv.small);
    loads = inv.loads;
    agree = inv.agree;
    below = inv.below;
    chain = inv.chain;
    at_head = tt;
    slots = inv.slots;
  }

  pub shrunk-Inv :
      (c : Command) (k : Pop) (n old : ℕ)
      → InvAt (shrunk k n old) s
      → Inv (owner_at c (shrunk k n old) s)
  unfolding owner_at shrink_check
  shrunk-Inv c k n old inv =
      if_both Inv (s.wt.ts.tail == old)
        (λ none_left. record {
          small = inv.small;
          shape = ground (arith, inv.shape);
          loads = inv.loads;
          agree = inv.agree;
          below = inv.below;
          chain = inv.chain;
          at_head = tt;
          slots = inv.slots;
        })
        (λ some_left.
          if_both Inv (ltb n s.wt.ts.tail)
            (λ passed. record {
              small = inv.small;
              shape = ground (arith, inv.shape, inv.small);
              loads = inv.loads;
              agree = inv.agree;
              below = inv.below;
              chain = inv.chain;
              at_head = tt;
              slots = inv.slots;
            })
            (λ held.
              settle-Inv k {p = regrow}
                (record {
                  small = inv.small;
                  shape = ground (arith, inv.shape, inv.small);
                  loads = inv.loads;
                  agree = inv.agree;
                  below = inv.below;
                  chain = inv.chain;
                  at_head = tt;
                  slots = inv.slots;
                })
                refl (ground (arith, inv.shape)) (ground (arith, inv.shape))))

  pub mending-Inv :
      (c : Command) (k : Pop) (n : ℕ) → InvAt (mending k n) s → Inv (owner_at c (mending k n) s)
  unfolding owner_at
  mending-Inv c k n inv =
      settle-Inv k {p = regrow}
        (record {
          small = inv.small;
          shape = ground (arith, inv.shape, inv.small);
          loads = inv.loads;
          agree = inv.agree;
          below = inv.below;
          chain = inv.chain;
          at_head = tt;
          slots = inv.slots;
        })
        refl (ground (arith, inv.shape)) (ground (arith, inv.shape))

  pub all_gone-Inv : (c : Command) → InvAt all_gone s → Inv (owner_at c all_gone s)
  unfolding owner_at
  all_gone-Inv c inv = record {
    small = inv.small;
    shape = ground (arith, inv.shape);
    loads = inv.loads;
    agree = refl;
    below = inv.below;
    chain = inv.chain;
    at_head = tt;
    slots = inv.slots;
  }

  pub regrow-Inv : (c : Command) → InvAt regrow s → Inv (owner_at c regrow s)
  unfolding owner_at sync_regrow goto
  regrow-Inv c inv =
      if_both Inv s.wt.movesplit
        (λ wanted. record {
          small = inv.small;
          shape = inv.shape;
          loads = inv.loads;
          agree = inv.agree;
          below = inv.below;
          chain = inv.chain;
          at_head = tt;
          slots = inv.slots;
        })
        (λ quiet. record {
          small = inv.small;
          shape = inv.shape;
          loads = inv.loads;
          agree = inv.agree;
          below = inv.below;
          chain = inv.chain;
          at_head = tt;
          slots = inv.slots;
        })

  pub regrowing-Inv : (c : Command) → InvAt regrowing s → Inv (owner_at c regrowing s)
  unfolding owner_at
  regrowing-Inv c inv = record {
    small = inv.small;
    shape = ground (arith, inv.shape, inv.small);
    loads = inv.loads;
    agree = inv.agree;
    below = inv.below;
    chain = inv.chain;
    at_head = tt;
    slots = inv.slots;
  }

  pub regrown-Inv : (c : Command) → InvAt regrown s → Inv (owner_at c regrown s)
  unfolding owner_at
  regrown-Inv c inv = record {
    small = inv.small;
    shape = inv.shape;
    loads = inv.loads;
    agree = inv.agree;
    below = inv.below;
    chain = inv.chain;
    at_head = tt;
    slots = inv.slots;
  }

  pub taking-Inv : (c : Command) → InvAt taking s → Inv (owner_at c taking s)
  unfolding owner_at
  taking-Inv c inv = record {
    small = inv.small;
    shape = ground (arith, inv.shape);
    loads = inv.loads;
    agree = inv.agree;
    below = inv.below;
    chain = inv.chain;
    at_head = tt;
    slots = (Slots-take inv.slots (omega arith) (ground (arith, inv.shape))).1;
  }
