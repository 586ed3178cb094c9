-- ===== src/Deque/Params.antt =====
-- src/lace.h, the macros that declare a task with any number of parameters: `TASK_DECL_n` and
-- `TASK_IMPL_n`, `VOID_TASK_DECL_n` and `VOID_TASK_IMPL_n`. What they declare for a task NAME are
-- functions of `arg_1`, ..., `arg_n`.
pub mod Arities
pub mod Wide
pub mod Returns
pub mod Calls
mod Tests
use lace.Prelude.{Option, none, some, List, [], ◌∷◌}
use lace.Deque.State.{Command, spawn, sync_next}
use lace.Deque.Value.{Union, args, Machine, result, wrap, Action, owner, act}
use lace.Deque.Void.{VoidMachine, void_act}

-- `ATYPE_1`, ..., `ATYPE_n`
abbrev pub Params : Type 1
Params = List (Type 0)

-- The arguments of a call.
abbrev pub Args : Params → Type 0
Args [] = Unit
Args (A ∷ ps) = A × Args ps

-- Functions of the parameters.
abbrev pub Fun : Params → Type 0 → Type 0
Fun [] R = R
Fun (A ∷ ps) R = A → Fun ps R

unfoldable pub apply : (ps : Params) {R : Type 0} → Fun ps R → Args ps → R
apply [] f tt = f
apply (A ∷ ps) f (arg, rest) = apply ps (f arg) rest

-- `struct { ATYPE_1 arg_1; ...; ATYPE_n arg_n; } args`: each field holds what was stored last, or
-- nothing of its type.
abbrev pub Fields : Params → Type 0
Fields [] = Unit
Fields (A ∷ ps) = Option A × Fields ps

abbrev pub garbage : (ps : Params) → Fields ps
garbage [] = tt
garbage (A ∷ ps) = (none, garbage ps)

-- What the fields hold before they are written.
abbrev pub stale : (ps : Params) {R : Type 0} → Union (Fields ps) R → Fields ps
stale ps (args d) = d
stale ps _ = garbage ps

-- `NAME_WORK(w, __dq_head, t->d.args.arg_1, ..., t->d.args.arg_n)`: each field is read in turn.
unfoldable pub load : (ps : Params) {R : Type 0} → Fun ps R → Fields ps → Option R
load [] work tt = some work
load (A ∷ ps) work (some arg, rest) = load ps (work arg) rest
load (A ∷ ps) work (none, rest) = none

-- `t->d.args.arg_1 = arg_1; ...; t->d.args.arg_n = arg_n;`, each field in turn, then what follows.
unfoldable pub store : (ps : Params) {X : Type 0} → Fields ps → (Fields ps → X) → Fun ps X
store [] tt next = next tt
store (A ∷ ps) (_, rest) next = λ arg. store ps rest (λ r. next (some arg, r))

-- The functions that a declaration of a task with a result makes. `lace_run` is `lace_run_task`,
-- `lace_run_task_exclusive` or `lace_run_newframe`: what it leaves of a task's union.
pub record TaskMacros (ps : Params) (R : Type 0) : Type 1 where
  pub name_call : Fun ps R
  pub name_wrap : Union (Fields ps) (Option R) → Union (Fields ps) (Option R)
  -- the next access of the two
  pub name_spawn : Machine (Fields ps) (Option R) → Fun ps (Machine (Fields ps) (Option R))
  pub name_sync : Machine (Fields ps) (Option R) → Machine (Fields ps) (Option R)
  pub name_run :
      (lace_run : Union (Fields ps) (Option R) → Union (Fields ps) (Option R))
      → Fun ps (Option (Option R))
  pub name_together :
      {X : Type 0} → (lace_run_together : Union (Fields ps) (Option R) → X) → Fun ps X

-- `TASK_DECL_n` and `TASK_IMPL_n`. A task on the stack of `NAME_RUN` begins as garbage.
unfoldable pub declare : (ps : Params) {R : Type 0} → Fun ps R → TaskMacros ps R
unfolding load store act wrap result
declare ps work = record {
  name_call = work;
  name_wrap = wrap (load ps work);
  name_spawn =
      λ m. store ps (stale ps (m.d m.sys.head)) (λ d. act (load ps work) m (owner spawn d));
  name_sync = λ m. act (load ps work) m (owner sync_next (garbage ps));
  name_run = λ lace_run. store ps (garbage ps) (λ d. result (lace_run (args d)));
  name_together = λ lace_run_together. store ps (garbage ps) (λ d. lace_run_together (args d));
}

abbrev pub old_fields : (ps : Params) → Option (Fields ps) → Fields ps
old_fields ps (some d) = d
old_fields ps none = garbage ps

-- The functions of a task without a result; `d` has only the arguments. `lace_run` is what becomes
-- of the fields.
pub record VoidMacros (ps : Params) : Type 1 where
  pub name_call : {R : Type 0} → Fun ps R → Fields ps → Option R
  -- the next access of the two
  pub name_spawn : VoidMachine (Fields ps) → Fun ps (VoidMachine (Fields ps))
  pub name_sync : VoidMachine (Fields ps) → VoidMachine (Fields ps)
  pub name_run : {X : Type 0} → (lace_run : Fields ps → X) → Fun ps X

-- `VOID_TASK_DECL_n` and `VOID_TASK_IMPL_n`
unfoldable pub declare_void : (ps : Params) → VoidMacros ps
unfolding load store void_act
declare_void ps = record {
  name_call = load ps;
  name_spawn = λ m. store ps (old_fields ps (m.d m.sys.head)) (λ d. void_act m (owner spawn d));
  name_sync = λ m. void_act m (owner sync_next (garbage ps));
  name_run = λ lace_run. store ps (garbage ps) lace_run;
}
