-- ===== src/Deque/Value/Right.antt =====
-- Each `SYNC` returns the value of its task's function at the arguments of its `SPAWN`.
use lace.Prelude.{
  ℕ, ◌<◌, ◌^◌, ◌≡◌, inr, refl, sym, subst, ap, ◌∙◌, Bool, true, false, if_both, Option, some, List,
  [], ◌∷◌, arith, ◌==◌, update,
}
use native.Mathlib.Decide.{ℕ_discrete}
use lace.Deque.State.{OwnerPc, ready, taking, clearing, Command, spawn, System}
use lace.Deque.Owner.{own, owner_at, command, spawn_task}
use lace.Deque.Steal.{steal, same}
use lace.Deque.Interleaving.{Move, step}
use lace.Deque.Invariant.{Inv, InvAt, step-Inv, init_worker-Inv}
use lace.Deque.Value.{
  args, res, Machine, init_machine, result, call, owner_writes, Action, act, run_machine,
}
use lace.Deque.Value.Frame.{Keeps, full-Keeps, owner_at-Keeps}
use lace.Deque.Value.Good.{Fits, Good, quiet-Good, write-Good, thief-Good}

-- Where a `SYNC` returns.
abbrev pub returns : OwnerPc → Bool
returns taking = true
returns clearing = true
returns _ = false

update_at : {A : Type 0} (f : ℕ → A) (i : ℕ) (x : A) → update f i x i ≡ x
update_at f i x = ground arith

module _ {A R : Type 0} (work : A → R) where
  -- What the owner finds in the slot at its head where it executes the task itself.
  pub own_task :
      (m : Machine A R)
      → Good work m
      → m.sys.at ≡ taking
      → (a : A) × (m.d m.sys.head ≡ args a)
        × (m.given (m.sys.f m.sys.head) ≡ some a)
        × (m.sys.f m.sys.head < m.sys.spawned)
  own_task m good at =
      let (a, d, g) =
        subst (λ t. Fits work t (m.d m.sys.head) (m.given (m.sys.f m.sys.head)))
          (here.slots.waiting m.sys.head (ground (arith, here.shape)) (omega arith)).0
          (good.fits m.sys.head (ground arith)) in
      (a, d, g, here.slots.dated m.sys.head (omega arith))
    where
      here : InvAt taking m.sys
      here = subst (λ p. InvAt p m.sys) at good.deque

  -- And where its thief is done.
  pub stolen_task :
      (m : Machine A R)
      → Good work m
      → m.sys.at ≡ clearing
      → (a : A) × (m.d m.sys.head ≡ res (work a))
        × (m.given (m.sys.f m.sys.head) ≡ some a)
        × (m.sys.f m.sys.head < m.sys.spawned)
  stolen_task m good at =
      let (a, d, g) =
        subst (λ t. Fits work t (m.d m.sys.head) (m.given (m.sys.f m.sys.head))) here.at_head
          (good.fits m.sys.head (ground arith)) in
      (a, d, g, here.slots.dated m.sys.head (omega arith))
    where
      here : InvAt clearing m.sys
      here = subst (λ p. InvAt p m.sys) at good.deque

  return-Good :
      (m : Machine A R) (t : System) (x : Option R) (a : A)
      → Good work m
      → Inv t
      → Keeps m.sys t
      → x ≡ some (work a)
      → m.given (m.sys.f m.sys.head) ≡ some a
      → m.sys.f m.sys.head < m.sys.spawned
      → Good work (record m { sys = t; returned = update m.returned (m.sys.f m.sys.head) x })
  return-Good m t x a good inv keeps e g old = record {
    deque = inv;
    fits = (quiet-Good work m t good inv keeps).fits;
    past = λ n v r. ground (arith, good.past n v, keeps.more);
    right = λ n v r. elim (ℕ_discrete (m.sys.f m.sys.head) n) [
      | yes same ↦ (a, ap m.given (sym same) ∙ g, ground arith)
      | no other ↦ good.right n v (ground arith)
    ];
  }

  pub owner-Good :
      (m : Machine A R) (c : Command) (a : A) (p : OwnerPc)
      → Good work m
      → Inv (owner_at c p m.sys)
      → m.sys.at ≡ p
      → Good work (owner_writes work c a p m)
  unfolding owner_writes call result
  owner-Good m c a taking good inv at =
      let (b, d, g, old) = own_task m good at in
      return-Good m (owner_at c taking m.sys) (call work (m.d m.sys.head)) b good inv
        (owner_at-Keeps m.sys c taking at (inr (λ e. ground arith))) (ap (call work) d) g old
  owner-Good m c a clearing good inv at =
      let (b, d, g, old) = stolen_task m good at in
      return-Good m (owner_at c clearing m.sys) (result (m.d m.sys.head)) b good inv
        (owner_at-Keeps m.sys c clearing at (inr (λ e. ground arith))) (ap result d) g old
  owner-Good m spawn a ready good inv at =
      if_both (Good work) (m.sys.head == m.sys.w.end)
        (λ e.
          unfold owner_at in
          unfold command in
          quiet-Good work m (spawn_task m.sys) good (unfold owner_at in unfold command in inv)
            (full-Keeps m.sys at e))
        (λ e.
          unfold owner_at in
          unfold command in
          write-Good work m a good (unfold owner_at in unfold command in inv) at e)
  owner-Good m c a p good inv at =
      quiet-Good work m (owner_at c p m.sys) good inv (owner_at-Keeps m.sys c p at (ground arith))

  pub act-Good : (x : Action A) (m : Machine A R) → Good work m → Good work (act work m x)
  unfolding act
  act-Good (Action.owner c a) m good =
      owner-Good m c a m.sys.at good
        (unfold step in unfold own in step-Inv (Move.owner c) good.deque) refl
  act-Good (Action.thief luck k) m good =
      unfold steal in
      thief-Good work m luck k (m.sys.pc k) good
        (unfold step in unfold steal in step-Inv (Move.thief luck k) good.deque) refl

  pub init_machine-Good : (dqsize : ℕ) → dqsize < 2 ^ 31 → Good work (init_machine dqsize)
  init_machine-Good dqsize small = record {
    deque = init_worker-Inv dqsize small;
    fits = λ i p. tt;
    past = λ n v e. absurd (ground arith);
    right = λ n v e. absurd (ground arith);
  }

  run_machine-Good :
      (l : List (Action A)) (m : Machine A R) → Good work m → Good work (run_machine work l m)
  unfolding run_machine
  run_machine-Good [] m good = good
  run_machine-Good (x ∷ l) m good = run_machine-Good l (act work m x) (act-Good x m good)

  -- What the owner's access at such a point returns.
  return_value :
      (m : Machine A R) (c : Command) (b : A) (p : OwnerPc)
      → Good work m
      → m.sys.at ≡ p
      → returns p ≡ true
      → (a : A) × (m.given (m.sys.f m.sys.head) ≡ some a)
        × ((owner_writes work c b p m).returned (m.sys.f m.sys.head) ≡ some (work a))
  unfolding owner_writes call result
  return_value m c b taking good at e =
      let (a, d, g, old) = own_task m good at in
      (a, g, update_at m.returned (m.sys.f m.sys.head) _ ∙ ap (call work) d)
  return_value m c b clearing good at e =
      let (a, d, g, old) = stolen_task m good at in
      (a, g, update_at m.returned (m.sys.f m.sys.head) _ ∙ ap result d)
  return_value m c b _ good at e = absurd (ground arith)

module _ {A R : Type 0} (work : A → R) (l : List (Action A)) (dqsize : ℕ)
    (small : dqsize < 2 ^ 31) where
  abbrev final : Machine A R
  final = run_machine work l (init_machine dqsize)

  reached : Good work final
  reached = run_machine-Good work l (init_machine dqsize) (init_machine-Good work dqsize small)

  -- In any interleaving of the owner and the thieves, what a `SYNC` has returned is the value of
  -- the task's function at the arguments that the matching `SPAWN` was given, whoever ran the task.
  pub sync_value :
      (n : ℕ) (v : R)
      → final.returned n ≡ some v
      → (a : A) × (final.given n ≡ some a) × (v ≡ work a)
  sync_value = reached.right

  -- In any interleaving, where the owner's next access makes a `SYNC` return, the task's union is
  -- read as what was written last: the call returns a value, that of the function at the arguments
  -- of the task.
  pub sync_returns :
      (c : Command) (b : A)
      → returns final.sys.at ≡ true
      → (a : A) × (final.given (final.sys.f final.sys.head) ≡ some a)
        × ((act work final (Action.owner c b)).returned (final.sys.f final.sys.head)
            ≡ some (work a))
  unfolding act
  sync_returns c b e = return_value work final c b final.sys.at reached refl e
