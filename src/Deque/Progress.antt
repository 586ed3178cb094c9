-- ===== src/Deque/Progress.antt =====
-- How many of its own accesses the owner needs, whatever the thieves do meanwhile.
use lace.Prelude.{ℕ, suc, ◌≤◌, ◌<◌, ◌≡◌, refl, ap, List, [], ◌∷◌, ◌++◌, Bool, arith}
use native.Mathlib.Decide.{ℕ_discrete}
use lace.Deque.State.{
  System, ThiefPc, rest, OwnerPc, ready, overflow, spawning, unasking, growing, regrowing,
  reopening, reopened, grown, popping, slow, shrinking, shrunk, mending, all_gone, regrow, regrown,
  taking, leaping, spinning, landed, clearing, Command, sync, drop,
}
use lace.Deque.Owner.{owner_at, own}
use lace.Deque.Steal.{steal_at, steal}
use lace.Deque.Interleaving.{Move, step, run}

-- An upper bound on the accesses that are left before the owner is back in application code, ends
-- the program, or waits for a thief.
abbrev pub rank : OwnerPc → ℕ
rank ready = 0
rank overflow = 0
rank spawning = 4
rank unasking = 3
rank reopening = 2
rank reopened = 1
rank growing = 2
rank grown = 1
rank (popping _) = 9
rank (slow _) = 8
rank (shrinking _ _) = 7
rank (shrunk _ _ _) = 6
rank (mending _ _) = 5
rank all_gone = 3
rank regrow = 4
rank regrowing = 3
rank regrown = 2
rank taking = 1
rank leaping = 2
rank spinning = 0
rank landed = 2
rank clearing = 1

-- Each access of the owner brings it nearer.
owner_at-rank :
    (c : Command) (p : OwnerPc) (s : System) → 0 < rank p → rank (owner_at c p s).at < rank p
unfolding owner_at
owner_at-rank c ready s busy = absurd (omega arith)
owner_at-rank c overflow s busy = absurd (omega arith)
owner_at-rank c spinning s busy = absurd (omega arith)
owner_at-rank c (popping sync) s busy = ground arith
owner_at-rank c (popping drop) s busy = ground arith
owner_at-rank c (slow sync) s busy = ground arith
owner_at-rank c (slow drop) s busy = ground arith
owner_at-rank c (shrunk sync n old) s busy = ground arith
owner_at-rank c (shrunk drop n old) s busy = ground arith
owner_at-rank c (mending sync n) s busy = ground arith
owner_at-rank c (mending drop n) s busy = ground arith
owner_at-rank c _ s busy = ground arith

-- A thief does not move the owner.
steal-at : (luck : Bool) (k : ℕ) (p : ThiefPc) (s : System) → (steal_at luck k p s).at ≡ s.at
unfolding steal_at
steal-at luck k (rest r) s = ground arith
steal-at luck k _ s = ground arith

abbrev pub owner_moves : List Move → ℕ
owner_moves [] = 0
owner_moves (Move.owner _ ∷ l) = suc (owner_moves l)
owner_moves (Move.thief _ _ ∷ l) = owner_moves l

step-rank :
    (m : Move) (l : List Move) (s : System)
    → 0 < rank s.at
    → rank s.at ≤ owner_moves (m ∷ l)
    → rank (step s m).at ≤ owner_moves l
unfolding step own steal
step-rank (Move.owner c) l s busy enough = omega (arith, owner_at-rank c s.at s busy)
step-rank (Move.thief luck k) l s busy enough = rw (steal-at luck k (s.pc k) s) enough

-- Wait-freedom of the owner: from any state, after as many of its own accesses as `rank` says, at
-- most 9, in any interleaving with the thieves' accesses, the owner has been in application code,
-- at the end of the program, or at a stolen task that it waits for.
pub owner_wait_free :
    (l : List Move) (s : System)
    → rank s.at ≤ owner_moves l
    → (done : List Move) × (left : List Move) × (done ++ left ≡ l) × (rank (run done s).at ≡ 0)
unfolding run
owner_wait_free [] s enough = ([], [], refl, omega arith)
owner_wait_free (m ∷ l) s enough = elim (ℕ_discrete (rank s.at) 0) [
  | yes rested ↦ ([], m ∷ l, refl, rested)
  | no busy ↦
      let (done, left, e, rested) =
        owner_wait_free l (step s m) (step-rank m l s (omega arith) enough) in
      (m ∷ done, left, ap (λ r. m ∷ r) e, rested)
]
