-- ===== src/Deque/Interleaving.antt =====
-- Runs of one deque: any sequence of accesses by the owner and by calls of `lace_steal`, from the
-- state that `lace_init_worker` (src/lace.c) leaves.
use lace.Prelude.{ℕ, Bool, false, List, [], foldl}
use lace.Deque.State.{Thief, ThiefPc, StealResult, OwnerPc, Command, System}
use lace.Deque.Owner.{own}
use lace.Deque.Steal.{steal}

-- The memory is cleared, then the pointers are set; `default_dqsize` gives the end.
abbrev pub init_worker : ℕ → System
init_worker dqsize = record {
  wt = record { ts = record { tail = 0; split = 0 }; allstolen = false; movesplit = false };
  w = record { split = 0; allstolen = false; end = dqsize };
  thief = λ _. Thief.empty;
  f = λ _. 0;
  head = 0;
  at = OwnerPc.ready;
  pins = [];
  pc = λ _. ThiefPc.rest StealResult.nowork;
  spawned = 0;
  runs = λ _. 0;
  dropped = λ _. false;
}

-- Who moves next: the owner, with what its program asks for next, or call `k` of `lace_steal`.
pub data Move : Type 0 where
  owner : Command → Move
  thief : (luck : Bool) (k : ℕ) → Move

unfoldable pub step : System → Move → System
step s (Move.owner c) = own c s
step s (Move.thief luck k) = steal luck k s

unfoldable pub run : List Move → System → System
unfolding step
run l s = foldl step s l
