-- ===== src/Deque/Dropping.antt =====
-- src/lace.h, `lace_drop`, and src/lace.c, `lace_get_head`: a dropped task's slot stays marked.
use lace.Prelude.{inr, ℕ, suc, ◌^◌, ◌≤◌, ◌<◌, ◌≡◌, refl, subst, List, false, some, arith}
use lace.Deque.State.{System, ready, popping, drop, Command}
use lace.Deque.Owner.{owner_at, own, discard}
use lace.Deque.Interleaving.{init_worker, Move, run}
use lace.Deque.Invariant.{InvAt, init_worker-Inv, run-Inv}
use lace.Deque.GetHead.{Clean, used-not-empty, run_from-Clean, is_empty-eq}
use lace.Head.{get_head}
use lace.Head.Correct.{IsPrefix, get_head-eq-head}

-- The fast path of `lace_drop`.
drop_fast :
    (c : Command) (s : System)
    → s.at ≡ popping drop
    → s.wt.movesplit ≡ false
    → s.w.split ≤ s.head
    → own c s ≡ discard s
unfolding own owner_at
drop_fast c s here quiet low = ground arith

discard-IsPrefix :
    {s : System}
    → InvAt (popping drop) s
    → Clean s
    → s.at ≡ popping drop
    → ((n : ℕ) → s.dropped n ≡ false)
    → IsPrefix s.thief (suc s.head) s.w.end
discard-IsPrefix {s} inv clean here nd = record {
  within = ground (arith, inv.shape);
  used = λ i p. used-not-empty inv i (omega arith);
  free = λ i p q. is_empty-eq _ (clean nd i (rw here (omega arith)));
}

module _ (l : List Move) (dqsize : ℕ) (small : dqsize < 2 ^ 31) where
  abbrev final : System
  final = run l (init_worker dqsize)

  -- `DROP` of a task that was not stolen: where no task was dropped before, the fast path of
  -- `lace_drop` ends with the head at the dropped task, and `lace_get_head` then returns the index
  -- after it.
  pub drop-get_head :
      (c : Command)
      → 4 ≤ final.w.end
      → final.at ≡ popping drop
      → ((n : ℕ) → final.dropped n ≡ false)
      → final.wt.movesplit ≡ false
      → final.w.split ≤ final.head
      → ((own c final).at ≡ ready)
        × ((own c final).head ≡ final.head)
        × (get_head (suc final.w.end) (own c final).thief final.w.end ≡ some (suc final.head))
  drop-get_head c least here nd quiet low = rw (drop_fast c final here quiet low) (
      unfold discard in
      (refl, refl, get_head-eq-head pre _ (omega arith) (inr least) (omega (arith, inv.small))))
    where
      inv : InvAt (popping drop) final
      inv = subst (λ q. InvAt q final) here (run-Inv l dqsize small)

      pre : IsPrefix final.thief (suc final.head) final.w.end
      pre =
          discard-IsPrefix inv
            (run_from-Clean l (init_worker dqsize) (init_worker-Inv dqsize small) (λ n i q. refl))
            here nd
