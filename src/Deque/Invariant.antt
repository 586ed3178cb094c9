-- ===== src/Deque/Invariant.antt =====
-- The invariant of a deque under its owner and its thieves: it holds at the start, and each access
-- to shared memory keeps it.
mod Defs
mod Spawning
mod Popping
mod Syncing
mod Leaping
mod Sharing
mod Stealing
pub use Defs.*
use lace.Prelude.{ℕ, ◌^◌, ◌<◌, ◌≡◌, refl, sym, subst, List, [], ◌∷◌, foldl, arith, Bool}
use lace.Deque.State.{
  System, OwnerPc, ready, overflow, spawning, unasking, growing, regrowing, reopening, reopened,
  grown, popping, slow, shrinking, shrunk, mending, all_gone, regrow, regrown, taking, leaping,
  spinning, landed, clearing, Command, spawn, sync_next, drop_next, land, share, Pop, sync, drop,
}
use lace.Deque.Owner.{owner_at, own, command}
use lace.Deque.Steal.{steal}
use lace.Deque.Interleaving.{init_worker, Move, step, run}
use Spawning.*
use Popping.*
use Syncing.*
use Leaping.*
use Sharing.*
use Stealing.*

command-Inv : (c : Command) {s : System} → s.at ≡ ready → InvAt ready s → Inv (command c s)
unfolding command
command-Inv spawn here inv = spawn_task-Inv inv
command-Inv sync_next here inv = pop_task-Inv sync here inv
command-Inv drop_next here inv = pop_task-Inv drop here inv
command-Inv land {s} here inv = land_on-Inv s.pins refl here inv
command-Inv share here inv = share_all-Inv here inv

owner_at-Inv :
    (c : Command) (p : OwnerPc) {s : System} → s.at ≡ p → InvAt p s → Inv (owner_at c p s)
owner_at-Inv c ready here inv = unfold owner_at in command-Inv c here inv
owner_at-Inv c overflow {s} here inv = unfold owner_at in subst (λ p. InvAt p s) (sym here) inv
owner_at-Inv c spawning here inv = unfold owner_at in spawn_publish-Inv inv
owner_at-Inv c unasking here inv = unasking-Inv c inv
owner_at-Inv c growing here inv = growing-Inv c inv
owner_at-Inv c reopening here inv = reopening-Inv c inv
owner_at-Inv c reopened here inv = reopened-Inv c inv
owner_at-Inv c grown here inv = grown-Inv c inv
owner_at-Inv c (popping k) here inv = popping-Inv c k inv
owner_at-Inv c (slow k) here inv = slow-Inv c k inv
owner_at-Inv c (shrinking k ts) here inv = shrinking-Inv c k ts inv
owner_at-Inv c (shrunk k n old) here inv = shrunk-Inv c k n old inv
owner_at-Inv c (mending k n) here inv = mending-Inv c k n inv
owner_at-Inv c all_gone here inv = all_gone-Inv c inv
owner_at-Inv c regrow here inv = regrow-Inv c inv
owner_at-Inv c regrowing here inv = regrowing-Inv c inv
owner_at-Inv c regrown here inv = regrown-Inv c inv
owner_at-Inv c taking here inv = taking-Inv c inv
owner_at-Inv c leaping here inv = leaping-Inv c inv
owner_at-Inv c spinning here inv = spinning-Inv c inv
owner_at-Inv c landed here inv = landed-Inv c inv
owner_at-Inv c clearing here inv = clearing-Inv c inv

pub step-Inv : (m : Move) {s : System} → Inv s → Inv (step s m)
unfolding step own steal
step-Inv (Move.owner c) {s} inv = owner_at-Inv c s.at refl inv
step-Inv (Move.thief luck k) {s} inv = steal_at-Inv inv k luck (s.pc k) refl

pub init_worker-Inv : (dqsize : ℕ) → dqsize < 2 ^ 31 → Inv (init_worker dqsize)
init_worker-Inv dqsize small = record {
  small = small;
  shape = omega arith;
  agree = refl;
  below = omega arith;
  chain = tt;
  at_head = tt;
  loads = λ k ts e. cc;
  slots = record {
    waiting = λ i p q. absurd (omega arith);
    held = λ j i e. cc;
    unique = λ j k i e. cc;
    covered = λ i p q. absurd (omega arith);
    dated = λ i p. absurd (omega arith);
    distinct = λ i j p. absurd (omega arith);
    once = λ n. omega arith;
    unborn = λ n p. refl;
    kept = λ n p. absurd (omega arith);
    discarded = λ n p. cc;
    absent = λ n i p q. absurd (omega arith);
  };
}

run_from-Inv : (l : List Move) (s : System) → Inv s → Inv (run l s)
unfolding run
run_from-Inv [] s inv = inv
run_from-Inv (m ∷ l) s inv = run_from-Inv l (step s m) (step-Inv m inv)

pub run-Inv : (l : List Move) (dqsize : ℕ) → dqsize < 2 ^ 31 → Inv (run l (init_worker dqsize))
run-Inv l dqsize small = run_from-Inv l _ (init_worker-Inv dqsize small)
