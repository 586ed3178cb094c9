-- ===== src/Deque/Void/Called.antt =====
-- The function of a task without a result is called once, with the arguments of its `SPAWN`.
use lace.Prelude.{ℕ, ◌<◌, ◌^◌, ◌≡◌, refl, true, none, some, List, [], ◌∷◌, arith}
use lace.Deque.Steal.{steal}
use lace.Deque.Value.{blank, Action}
use lace.Deque.Value.Right.{init_machine-Good}
use lace.Deque.Void.{VoidMachine, init_void, void_act, run_void}
use lace.Deque.Void.Shadow.{Shadow, owner-Shadow, thief-Shadow}

module _ {A : Type 0} where
  act-Shadow : (x : Action A) (v : VoidMachine A) → Shadow v → Shadow (void_act v x)
  unfolding void_act steal
  act-Shadow (Action.owner c a) v sh = owner-Shadow v sh c a v.sys.at refl
  act-Shadow (Action.thief luck k) v sh = thief-Shadow v sh luck k (v.sys.pc k) refl

  run_void-Shadow : (l : List (Action A)) (v : VoidMachine A) → Shadow v → Shadow (run_void l v)
  unfolding run_void
  run_void-Shadow [] v sh = sh
  run_void-Shadow (x ∷ l) v sh = run_void-Shadow l (void_act v x) (act-Shadow x v sh)

  init_void-Shadow : (dqsize : ℕ) → dqsize < 2 ^ 31 → Shadow (init_void {A = A} dqsize)
  init_void-Shadow dqsize small = record {
    d = λ _. blank;
    returned = λ _. none;
    good = init_machine-Good (λ x. x) dqsize small;
    same = λ _. refl;
    right = λ n e. absurd (omega (arith, e));
    done = λ n e. absurd (ground (arith, e));
  }

  module _ (l : List (Action A)) (dqsize : ℕ) (small : dqsize < 2 ^ 31) where
    abbrev final : VoidMachine A
    final = run_void l (init_void dqsize)

    reached : Shadow final
    reached = run_void-Shadow l (init_void dqsize) (init_void-Shadow dqsize small)

    -- In any interleaving of the owner and the thieves: where the `SYNC` of a task without a result
    -- has returned, the function of the task has been started exactly once, by its owner or by a
    -- thief, and was called with the arguments that the matching `SPAWN` was given.
    pub synced_was_called :
        (n : ℕ)
        → final.synced n ≡ true
        → (final.sys.runs n ≡ 1) × ((a : A) × (final.called n ≡ some a) × (final.given n ≡ some a))
    synced_was_called n e = (reached.done n e, reached.right n (reached.done n e))

    -- And whatever was started was called with the arguments of its `SPAWN`, synced or not.
    pub called_with_args :
        (n : ℕ)
        → final.sys.runs n ≡ 1
        → (a : A) × (final.called n ≡ some a) × (final.given n ≡ some a)
    called_with_args = reached.right
