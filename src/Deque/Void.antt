-- ===== src/Deque/Void.antt =====
-- src/lace.h, tasks without a result: `VOID_TASK_1`. The union `d` of `TD_NAME` has only the
-- arguments; `NAME_WRAP` and `NAME_SYNC` call the function, and nothing is handed back.
mod Shadow
pub mod Called
mod Tests
use lace.Prelude.{
  ℕ, Bool, true, false, Option, none, some, List, foldl, ◌==◌, if◌then◌else◌, update,
}
use lace.Deque.State.{
  Thief, OwnerPc, ready, taking, clearing, ThiefPc, marked, Command, spawn, System,
}
use lace.Deque.Owner.{owner_at}
use lace.Deque.Steal.{steal}
use lace.Deque.Interleaving.{init_worker}
use lace.Deque.Value.{Action, owner, thief}

-- A deque with the arguments in its slots. For each spawn, `given` is what it was given, `called`
-- what its function was called with, and `synced` whether its `SYNC` has returned; these three are
-- not in the program.
pub record VoidMachine (A : Type 0) : Type 0 where
  pub sys : System
  pub d : ℕ → Option A  -- `none` before the first spawn
  pub given : ℕ → Option A
  pub called : ℕ → Option A
  pub synced : ℕ → Bool

abbrev pub init_void : {A : Type 0} → ℕ → VoidMachine A
init_void dqsize = record {
  sys = init_worker dqsize;
  d = λ _. none;
  given = λ _. none;
  called = λ _. none;
  synced = λ _. false;
}

-- `NAME_CALL(w, __dq_head, t->d.args.arg_1)` of the task in slot `i`.
unfoldable pub void_call : {A : Type 0} → ℕ → VoidMachine A → ℕ → Option A
void_call i m = update m.called (m.sys.f i) (m.d i)

-- `NAME_SPAWN` writes the arguments.
unfoldable pub void_spawn : {A : Type 0} → A → VoidMachine A → VoidMachine A
void_spawn a m = if m.sys.head == m.sys.w.end then m else record m {
  d = update m.d m.sys.head (some a);
  given = update m.given m.sys.spawned (some a);
}

-- What the owner's next access does to them. `NAME_SYNC` and `NAME_SYNC_SLOW` call the function
-- themselves, or return where `lace_leapfrog` is done.
unfoldable pub void_owner : {A : Type 0} → Command → A → OwnerPc → VoidMachine A → VoidMachine A
unfolding void_call void_spawn
void_owner c a taking m = record m {
  called = void_call m.sys.head m;
  synced = update m.synced (m.sys.f m.sys.head) true;
}
void_owner c a clearing m = record m { synced = update m.synced (m.sys.f m.sys.head) true }
void_owner spawn a ready m = void_spawn a m
void_owner c a p m = m

-- What a thief's next access does: `t->f` begins with `NAME_WRAP`, which reads the arguments.
unfoldable pub void_thief : {A : Type 0} → ThiefPc → VoidMachine A → VoidMachine A
unfolding void_call
void_thief (marked i) m = record m { called = void_call i m }
void_thief _ m = m

unfoldable pub void_act : {A : Type 0} → VoidMachine A → Action A → VoidMachine A
unfolding void_owner void_thief owner_at steal
void_act m (Action.owner c a) = record (void_owner c a m.sys.at m) {
  sys = owner_at c m.sys.at m.sys;
}
void_act m (Action.thief luck k) = record (void_thief (m.sys.pc k) m) { sys = steal luck k m.sys }

unfoldable pub run_void : {A : Type 0} → List (Action A) → VoidMachine A → VoidMachine A
unfolding void_act
run_void l m = foldl void_act m l
