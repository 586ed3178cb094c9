-- ===== src/Deque/Invariant/Leaping.antt =====
-- The owner's steps of `lace_leapfrog` keep the invariant.
use lace.Prelude.{
  ℕ, suc, ◌≤◌, ◌≡◌, refl, true, ◌&&◌, List, [], ◌∷◌, arith, sym, subst, ◌==◌, if_both,
}
use lace.Deque.State.{
  ready, OwnerPc, leaping, spinning, landed, clearing, Thief, empty, task, worker, completed,
  System, Command,
}
use lace.Deque.Owner.{owner_at, land_on, leap_with, is_completed}
use lace.Deque.Slots.{Slots, Slots-clear}
use lace.Deque.Invariant.Defs.{Inv, InvAt, Chain}

is_completed-eq : (t : Thief) → is_completed t ≡ true → t ≡ completed
unfolding is_completed
is_completed-eq empty h = cc
is_completed-eq task h = cc
is_completed-eq (worker _) h = cc
is_completed-eq completed h = refl

module _ {s : System} where
  pub land_on-Inv : (l : List ℕ) → s.pins ≡ l → s.at ≡ ready → InvAt ready s → Inv (land_on l s)
  unfolding land_on
  land_on-Inv [] e here inv = subst (λ p. InvAt p s) (sym here) inv
  land_on-Inv (h ∷ r) e here inv =
      if_both Inv (s.head == suc h && is_completed (s.thief h))
        (λ back. record {
          small = inv.small;
          shape = ground (arith, inv.shape, inv.below);
          loads = inv.loads;
          agree = inv.agree;
          below = ground (arith, links, inv.below);
          chain = links.1;
          at_head = is_completed-eq (s.thief h) (ground arith);
          slots =
              subst (λ b. Slots s.wt.ts.tail b s.thief s.f s.pc s.spawned s.runs s.dropped)
                (ground arith) inv.slots;
        })
        (λ still. subst (λ p. InvAt p s) (sym here) inv)
    where
      links : Chain (h ∷ r)
      links = subst Chain e inv.chain

      low : suc h ≤ s.wt.ts.tail
      low = ground (arith, inv.below)

  leap_with-Inv :
      (done : OwnerPc) (t : Thief)
      → (t ≡ completed → InvAt done s)
      → InvAt spinning s
      → Inv (leap_with done t s)
  unfolding leap_with
  leap_with-Inv done completed fin inv = record {
    small = inv.small;
    shape = (fin refl).shape;
    loads = inv.loads;
    agree = inv.agree;
    below = inv.below;
    chain = inv.chain;
    at_head = (fin refl).at_head;
    slots = (fin refl).slots;
  }
  leap_with-Inv done (worker k) fin inv = record {
    small = inv.small;
    shape = ground (arith, inv.shape);
    loads = inv.loads;
    agree = inv.agree;
    below = ground (arith, inv.shape);
    chain = (inv.below.1, inv.chain);
    at_head = tt;
    slots = inv.slots;
  }
  leap_with-Inv done empty fin inv = record {
    small = inv.small;
    shape = inv.shape;
    loads = inv.loads;
    agree = inv.agree;
    below = inv.below;
    chain = inv.chain;
    at_head = tt;
    slots = inv.slots;
  }
  leap_with-Inv done task fin inv = record {
    small = inv.small;
    shape = inv.shape;
    loads = inv.loads;
    agree = inv.agree;
    below = inv.below;
    chain = inv.chain;
    at_head = tt;
    slots = inv.slots;
  }

  pub leaping-Inv : (c : Command) → InvAt leaping s → Inv (owner_at c leaping s)
  unfolding owner_at
  leaping-Inv c inv =
      leap_with-Inv clearing (s.thief s.head)
        (λ e. record {
          small = inv.small;
          shape = inv.shape;
          loads = inv.loads;
          agree = inv.agree;
          below = inv.below;
          chain = inv.chain;
          at_head = e;
          slots = inv.slots;
        })
        (record {
          small = inv.small;
          shape = inv.shape;
          loads = inv.loads;
          agree = inv.agree;
          below = inv.below;
          chain = inv.chain;
          at_head = tt;
          slots = inv.slots;
        })

  pub spinning-Inv : (c : Command) → InvAt spinning s → Inv (owner_at c spinning s)
  unfolding owner_at
  spinning-Inv c inv =
      leap_with-Inv landed (s.thief s.head)
        (λ e. record {
          small = inv.small;
          shape = ground (arith, inv.shape);
          loads = inv.loads;
          agree = inv.agree;
          below = inv.below;
          chain = inv.chain;
          at_head = e;
          slots = inv.slots;
        })
        inv

  pub landed-Inv : (c : Command) → InvAt landed s → Inv (owner_at c landed s)
  unfolding owner_at
  landed-Inv c inv =
      if_both Inv s.w.allstolen
        (λ stolen. record {
          small = inv.small;
          shape = ground (arith, inv.shape);
          loads = inv.loads;
          agree = inv.agree;
          below = inv.below;
          chain = inv.chain;
          at_head = inv.at_head;
          slots = inv.slots;
        })
        (λ live. record {
          small = inv.small;
          shape = ground (arith, inv.shape);
          loads = inv.loads;
          agree = refl;
          below = inv.below;
          chain = inv.chain;
          at_head = inv.at_head;
          slots = inv.slots;
        })

  pub clearing-Inv : (c : Command) → InvAt clearing s → Inv (owner_at c clearing s)
  unfolding owner_at
  clearing-Inv c inv = record {
    small = inv.small;
    shape = ground (arith, inv.shape);
    loads = inv.loads;
    agree = inv.agree;
    below = inv.below;
    chain = inv.chain;
    at_head = tt;
    slots = (Slots-clear inv.slots (omega arith) (ground (arith, inv.shape)) inv.at_head).1;
  }
