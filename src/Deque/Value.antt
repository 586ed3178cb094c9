-- ===== src/Deque/Value.antt =====
-- src/lace.h, the parameters and results of tasks: `TD_NAME`, whose union `d` holds the arguments
-- until the task is done and then its result, and where `NAME_SPAWN`, `NAME_WRAP`, `NAME_SYNC` and
-- `NAME_SYNC_SLOW` of the deque write and read it.
pub mod Frame
pub mod Good
pub mod Right
mod Tests
use lace.Prelude.{ℕ, ◌+◌, Bool, Option, none, some, List, foldl, ◌==◌, if◌then◌else◌, update}
use lace.Deque.State.{OwnerPc, ready, taking, clearing, ThiefPc, running, Command, spawn, System}
use lace.Deque.Owner.{owner_at}
use lace.Deque.Steal.{steal}
use lace.Deque.Interleaving.{init_worker}

-- The union `d`: `args` or `res`. Nothing is written to it before the first spawn.
pub data Union (A R : Type 0) : Type 0 where
  blank : Union A R
  args : A → Union A R
  res : R → Union A R

-- A deque with the unions of its slots. For each spawn, `given` is what it was given, and `returned`
-- what its `SYNC` returned; these two are not in the program.
pub record Machine (A R : Type 0) : Type 0 where
  pub sys : System
  pub d : ℕ → Union A R
  pub given : ℕ → Option A
  pub returned : ℕ → Option R

abbrev pub init_machine : {A R : Type 0} → ℕ → Machine A R
init_machine dqsize = record {
  sys = init_worker dqsize;
  d = λ _. Union.blank;
  given = λ _. none;
  returned = λ _. none;
}

-- `t->d.res`: a fault on the other member.
unfoldable pub result : {A R : Type 0} → Union A R → Option R
result (Union.res r) = some r
result _ = none

-- `NAME_CALL(w, __dq_head, t->d.args.arg_1, ...)`
unfoldable pub call : {A R : Type 0} → (A → R) → Union A R → Option R
call work (Union.args a) = some (work a)
call work _ = none

-- `NAME_WRAP`: the result takes the place of the arguments.
unfoldable pub wrap : {A R : Type 0} → (A → R) → Union A R → Union A R
wrap work (Union.args a) = Union.res (work a)
wrap work _ = Union.blank

-- What the owner's next access does to the unions.
unfoldable pub owner_writes :
    {A R : Type 0} → (A → R) → Command → A → OwnerPc → Machine A R → Machine A R
unfolding owner_at call result
owner_writes work c a taking m = record m {
  sys = owner_at c taking m.sys;
  returned = update m.returned (m.sys.f m.sys.head) (call work (m.d m.sys.head));
}
owner_writes work c a clearing m = record m {
  sys = owner_at c clearing m.sys;
  returned = update m.returned (m.sys.f m.sys.head) (result (m.d m.sys.head));
}
owner_writes work spawn a ready m =
    if m.sys.head == m.sys.w.end then record m { sys = owner_at spawn ready m.sys } else record m {
      sys = owner_at spawn ready m.sys;
      d = update m.d m.sys.head (Union.args a);
      given = update m.given m.sys.spawned (some a);
    }
owner_writes work c a p m = record m { sys = owner_at c p m.sys }

-- What a thief's next access does to them: at the end of `t->f`, the result is written.
unfoldable pub thief_writes : {A R : Type 0} → (A → R) → ThiefPc → (ℕ → Union A R) → ℕ → Union A R
unfolding wrap
thief_writes work (running i) d = update d i (wrap work (d i))
thief_writes work _ d = d

-- The moves of the deque; a spawn has arguments.
pub data Action (A : Type 0) : Type 0 where
  owner : Command → A → Action A
  thief : (luck : Bool) (k : ℕ) → Action A

unfoldable pub act : {A R : Type 0} → (A → R) → Machine A R → Action A → Machine A R
unfolding owner_writes thief_writes steal
act work m (Action.owner c a) = owner_writes work c a m.sys.at m
act work m (Action.thief luck k) = record m {
  sys = steal luck k m.sys;
  d = thief_writes work (m.sys.pc k) m.d;
}

unfoldable pub run_machine : {A R : Type 0} → (A → R) → List (Action A) → Machine A R → Machine A R
unfolding act
run_machine work l m = foldl (act work) m l
