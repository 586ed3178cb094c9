-- ===== src/Deque/Invariant/Sharing.antt =====
-- The invariant where the owner makes all of its tasks shared.
use lace.Prelude.{ℕ, ◌≤◌, ◌<◌, ◌^◌, ◌≡◌, sym, subst, Bool, true, false, arith, ◌==◌, u32, if_elim}
use lace.Deque.State.{System, ready}
use lace.Deque.Owner.{share_all}
use lace.Deque.Invariant.Defs.{Level, InvAt, Inv}

-- The split points may go up to the head, or down to it where all tasks are stolen.
share-Level :
    (a : Bool) (tail split own head e : ℕ)
    → e < 2 ^ 31
    → Level a tail split own head × (head ≤ e)
    → Level a tail (u32 head) head head × (head ≤ e)
share-Level true tail split own head e small level = omega arith
share-Level false tail split own head e small level = omega arith

pub share_all-Inv : {s : System} → s.at ≡ ready → InvAt ready s → Inv (share_all s)
unfolding share_all
share_all-Inv {s} here inv =
    if_elim Inv (s.w.split == s.head) _ _ (λ e. subst (λ p. InvAt p s) (sym here) inv)
      (λ e.
        subst
          (λ p. InvAt p (record s {
            w = record (s.w) { split = s.head };
            wt = record (s.wt) { ts = record (s.wt.ts) { split = u32 s.head } };
          }))
          (sym here)
          (record {
            small = inv.small;
            shape =
                share-Level s.w.allstolen s.wt.ts.tail s.wt.ts.split s.w.split s.head s.w.end
                  inv.small inv.shape;
            agree = inv.agree;
            below = inv.below;
            chain = inv.chain;
            at_head = tt;
            loads = inv.loads;
            slots = inv.slots;
          }))
