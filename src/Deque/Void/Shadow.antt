-- ===== src/Deque/Void/Shadow.antt =====
-- A machine of tasks without results follows one whose tasks return their arguments.
use lace.Prelude.{
  ℕ, ◌≤◌, ◌≡◌, ◌≢◌, refl, sym, subst, ap, ◌∙◌, Bool, true, false, Option, none, some, arith, ◌==◌,
  if◌then◌else◌, update, List, [], ◌∷◌,
}
use native.Mathlib.Decide.{ℕ_discrete}
use lace.Deque.State.{
  worker, OwnerPc, ready, taking, clearing, ThiefPc, marked, running, Command, spawn, System,
}
use lace.Deque.Owner.{
  own, goto, owner_at, spawn_task, command, pop_task, land_on, spawn_publish, settle, pop_fast,
  discard, shrink_load, shrink_check, sync_regrow, leap_with,
}
use lace.Deque.Steal.{steal_at, steal, goto as thief_goto}
use lace.Deque.Interleaving.{Move, step}
use lace.Deque.Slots.{Slots-clear, claim}
use lace.Deque.Invariant.{Inv, InvAt, bound, step-Inv}
use lace.Deque.Value.{
  Union, blank, args, res, Machine, owner_writes, thief_writes, wrap, call, result,
}
use lace.Deque.Value.Frame.{top}
use lace.Deque.Value.Good.{Good, Fits, thief-Good, held_by}
use lace.Deque.Value.Right.{owner-Good, own_task}
use lace.Deque.Void.{VoidMachine, void_call, void_spawn, void_owner, void_thief}

program : Unit {0}
unfolding owner_at goto command pop_task land_on spawn_publish settle pop_fast discard shrink_load
    shrink_check sync_regrow leap_with spawn_task
program = tt

-- Only the owner's own execution of a task counts as a run.
land-runs : (pins : List ℕ) (s : System) → (land_on pins s).runs ≡ s.runs
unfolding program
land-runs [] s = refl
land-runs (h ∷ r) s = ground arith

owner-runs : (c : Command) (p : OwnerPc) (s : System) → p ≢ taking → (owner_at c p s).runs ≡ s.runs
unfolding program
owner-runs c taking s other = absurd (other refl)
owner-runs c p s other = ground (arith, land-runs s.pins s)

bound-le-top : (p : OwnerPc) (h : ℕ) → bound p h ≤ top p h
bound-le-top p h = ground arith

-- What is left of the argument in a union.
abbrev pub held : {A : Type 0} → Union A A → Option A
held blank = none
held (args a) = some a
held (res a) = some a

module _ {A : Type 0} where
  abbrev pub shadow : VoidMachine A → (ℕ → Union A A) → (ℕ → Option A) → Machine A A
  shadow v d r = record { sys = v.sys; d = d; given = v.given; returned = r }

  pub record Shadow (v : VoidMachine A) : Type 0 where
    pub d : ℕ → Union A A
    pub returned : ℕ → Option A
    pub good : Good (λ a. a) (shadow v d returned)
    pub same : (i : ℕ) → v.d i ≡ held (d i)
    pub right : (n : ℕ) → v.sys.runs n ≡ 1 → (a : A) × (v.called n ≡ some a) × (v.given n ≡ some a)
    pub done : (n : ℕ) → v.synced n ≡ true → v.sys.runs n ≡ 1

  module _ (v : VoidMachine A) (sh : Shadow v) where
    next-Inv : (m : Move) → Inv (step v.sys m)
    next-Inv m = step-Inv m sh.good.deque

    owner-Inv : (c : Command) (p : OwnerPc) → v.sys.at ≡ p → Inv (owner_at c p v.sys)
    owner-Inv c p at =
        subst (λ q. Inv (owner_at c q v.sys)) at
          (unfold step in unfold own in next-Inv (Move.owner c))

    runs_of :
        (c : Command) (p : OwnerPc)
        → p ≢ taking
        → (n : ℕ) → (owner_at c p v.sys).runs n ≡ v.sys.runs n
    runs_of c p other n = ap (λ r. r n) (owner-runs c p v.sys other)

    -- An access of the owner that is no write to the unions.
    quiet :
        (c : Command) (a : A) (p : OwnerPc)
        → p ≢ taking
        → Good (λ a. a) (record (shadow v sh.d sh.returned) { sys = owner_at c p v.sys })
        → Shadow (record v { sys = owner_at c p v.sys })
    quiet c a p other good = record {
      d = sh.d;
      returned = sh.returned;
      good = good;
      same = sh.same;
      right = λ n e. sh.right n (sym (runs_of c p other n) ∙ e);
      done = λ n e. runs_of c p other n ∙ sh.done n e;
    }

    machine : Machine A A
    machine = shadow v sh.d sh.returned

    owner-next :
        (c : Command) (a : A) (p : OwnerPc)
        → v.sys.at ≡ p
        → Good (λ x. x) (owner_writes (λ x. x) c a p machine)
    unfolding machine
    owner-next c a p at = owner-Good (λ x. x) machine c a p sh.good (owner-Inv c p at) at

    taking-Shadow :
        (c : Command) (a : A)
        → v.sys.at ≡ taking
        → Shadow (record (void_owner c a taking v) { sys = owner_at c taking v.sys })
    unfolding void_owner void_call owner_writes call machine program
    taking-Shadow c a at =
        let (b, d, g, old) = own_task (λ x. x) machine sh.good at in
        record {
          d = sh.d;
          returned = update sh.returned (v.sys.f v.sys.head) (call (λ x. x) (sh.d v.sys.head));
          good = owner-next c a taking at;
          same = sh.same;
          right = λ n e. elim (ℕ_discrete (v.sys.f v.sys.head) n) [
            | yes here ↦
                (b, ground (arith, sh.same v.sys.head, ap held d), ap v.given (sym here) ∙ g)
            | no other ↦ let (x, k, h) = sh.right n (ground (arith, e)) in (x, ground (arith, k), h)
          ];
          done = λ n e. ground (arith, sh.done n, (owner-Inv c taking at).slots.once n);
        }

    clearing-Shadow :
        (c : Command) (a : A)
        → v.sys.at ≡ clearing
        → Shadow (record (void_owner c a clearing v) { sys = owner_at c clearing v.sys })
    unfolding void_owner owner_writes result machine program
    clearing-Shadow c a at = record {
      d = sh.d;
      returned = update sh.returned (v.sys.f v.sys.head) (result (sh.d v.sys.head));
      good = owner-next c a clearing at;
      same = sh.same;
      right = sh.right;
      done = λ n e. ground (arith, sh.done n, ran);
    }
      where
        here : InvAt clearing v.sys
        here = subst (λ p. InvAt p v.sys) at sh.good.deque

        ran : v.sys.runs (v.sys.f v.sys.head) ≡ 1
        ran = (Slots-clear here.slots (omega arith) (ground (arith, here.shape)) here.at_head).0

    room :
        (a : A)
        → v.sys.at ≡ ready
        → Good
            (λ x. x)
            (record machine {
              sys = owner_at spawn ready v.sys;
              d = update sh.d v.sys.head (args a);
              given = update v.given v.sys.spawned (some a);
            })
        → Shadow (record v {
          sys = owner_at spawn ready v.sys;
          d = update v.d v.sys.head (some a);
          given = update v.given v.sys.spawned (some a);
        })
    unfolding machine
    room a at good = record {
      d = update sh.d v.sys.head (args a);
      returned = sh.returned;
      good = good;
      same = λ i. ground (arith, sh.same i);
      right = λ n e.
          let old = sym (runs_of spawn ready (λ q. ground arith) n) ∙ e in
          let (x, k, h) = sh.right n old in
          (x, k, ground (arith, h, sh.good.deque.slots.unborn n, old));
      done = λ n e. runs_of spawn ready (λ q. ground arith) n ∙ sh.done n e;
    }

    spawn-Shadow :
        (a : A)
        → v.sys.at ≡ ready
        → (b : Bool)
        → Good
            (λ x. x)
            (if b then record machine { sys = owner_at spawn ready v.sys } else record machine {
              sys = owner_at spawn ready v.sys;
              d = update sh.d v.sys.head (args a);
              given = update v.given v.sys.spawned (some a);
            })
        → Shadow
            (record (if b then v else record v {
              d = update v.d v.sys.head (some a);
              given = update v.given v.sys.spawned (some a);
            }) { sys = owner_at spawn ready v.sys })
    unfolding machine
    spawn-Shadow a at true good = quiet spawn a ready (λ q. ground arith) good
    spawn-Shadow a at false good = room a at good

    pub owner-Shadow :
        (c : Command) (a : A) (p : OwnerPc)
        → v.sys.at ≡ p
        → Shadow (record (void_owner c a p v) { sys = owner_at c p v.sys })
    unfolding void_owner void_spawn owner_writes machine
    owner-Shadow c a taking at = taking-Shadow c a at
    owner-Shadow c a clearing at = clearing-Shadow c a at
    owner-Shadow spawn a ready at =
        spawn-Shadow a at (v.sys.head == v.sys.w.end) (owner-next spawn a ready at)
    owner-Shadow c a p at = quiet c a p (λ q. ground arith) (owner-next c a p at)

    thief-next :
        (luck : Bool) (k : ℕ) (p : ThiefPc)
        → v.sys.pc k ≡ p
        → Good
            (λ x. x)
            (record machine { sys = steal_at luck k p v.sys; d = thief_writes (λ x. x) p sh.d })
    unfolding machine
    thief-next luck k p at =
        thief-Good (λ x. x) machine luck k p sh.good
          (subst (λ q. Inv (steal_at luck k q v.sys)) at
            (unfold step in unfold steal in next-Inv (Move.thief luck k)))
          at

    -- The slot that a thief works on holds the arguments of its task.
    stolen_args :
        (k i : ℕ) (p : ThiefPc)
        → v.sys.pc k ≡ p
        → claim p ≡ some i
        → v.sys.thief i ≡ worker k
        → (a : A) × (sh.d i ≡ args a) × (v.given (v.sys.f i) ≡ some a)
    stolen_args k i p at e held_by_k =
        subst (λ t. Fits (λ x. x) t (sh.d i) (v.given (v.sys.f i))) held_by_k
          (sh.good.fits i (
            omega (
              arith,
              (sh.good.deque.slots.held k i (ap claim at ∙ e)).1,
              bound-le-top v.sys.at v.sys.head,
            )))

    pub thief-Shadow :
        (luck : Bool) (k : ℕ) (p : ThiefPc)
        → v.sys.pc k ≡ p
        → Shadow (record (void_thief p v) { sys = steal_at luck k p v.sys })
    unfolding void_thief void_call thief_writes steal_at thief_goto wrap machine
    thief-Shadow luck k (marked i) at =
        let agree = held_by (λ x. x) machine k i (marked i) sh.good at refl in
        let (b, d, g) = stolen_args k i (marked i) at refl agree.0 in
        record {
          d = sh.d;
          returned = sh.returned;
          good = thief-next luck k (marked i) at;
          same = sh.same;
          right = λ n e. elim (ℕ_discrete (v.sys.f i) n) [
            | yes here ↦ (b, ground (arith, sh.same i, ap held d), ap v.given (sym here) ∙ g)
            | no other ↦ let (x, c, h) = sh.right n (ground (arith, e)) in (x, ground (arith, c), h)
          ];
          done = λ n e.
              ground (arith, sh.done n, (thief-next luck k (marked i) at).deque.slots.once n);
        }
    thief-Shadow luck k (running i) at =
        let agree = held_by (λ x. x) machine k i (running i) sh.good at refl in
        let (b, d, g) = stolen_args k i (running i) at refl agree.0 in
        record {
          d = update sh.d i (wrap (λ x. x) (sh.d i));
          returned = sh.returned;
          good = thief-next luck k (running i) at;
          same = λ j. elim (ℕ_discrete i j) [
            | yes here ↦ ground (arith, sh.same j, ap held d)
            | no other ↦ ground (arith, sh.same j)
          ];
          right = sh.right;
          done = sh.done;
        }
    thief-Shadow luck k p at = record {
      d = sh.d;
      returned = sh.returned;
      good = thief-next luck k p at;
      same = sh.same;
      right = λ n e. sh.right n (ground (arith, e));
      done = λ n e. ground (arith, sh.done n);
    }
