-- ===== src/Deque/Params/Returns.antt =====
-- What `SYNC` of a task with any parameters returns.
use lace.Prelude.{
  foldl, ℕ, ◌<◌, ◌^◌, ◌≡◌, ◌≢◌, refl, sym, ap, ◌∙◌, Option, none, some, List, [], ◌∷◌, map, Bool,
  true, false, ◌==◌, if◌then◌else◌, arith, update,
}
use native.Mathlib.Decide.{ℕ_discrete}
use lace.Deque.State.{OwnerPc, ready, Command, spawn, sync_next, drop_next, land, share}
use lace.Deque.Value.{Machine, init_machine, Action, owner, thief, act, run_machine, owner_writes}
use lace.Deque.Value.Right.{sync_value}
use lace.Deque.Params.{Params, Args, Fun, apply, Fields, garbage, stale, load, store, declare}

-- The fields with all arguments in them.
abbrev pub full : (ps : Params) → Args ps → Fields ps
full [] tt = tt
full (A ∷ ps) (arg, rest) = (some arg, full ps rest)

-- All fields are stored, whatever they held.
pub apply-store :
    (ps : Params) {X : Type 0} (old : Fields ps) (next : Fields ps → X) (a : Args ps)
    → apply ps (store ps old next) a ≡ next (full ps a)
unfolding apply store
apply-store [] _ next _ = refl
apply-store (A ∷ ps) (_, old) next (arg, rest) = apply-store ps old (λ r. next (some arg, r)) rest

-- And read in the order of the parameters.
pub load-full :
    (ps : Params) {R : Type 0} (work : Fun ps R) (a : Args ps)
    → load ps work (full ps a) ≡ some (apply ps work a)
unfolding load apply
load-full [] work _ = refl
load-full (A ∷ ps) work (arg, rest) = load-full ps (work arg) rest

-- What the program and the thieves do with what a declaration makes: an access of a call of `SPAWN`
-- with its arguments, of `SYNC`, of another command of the owner, or of a thief.
pub data Use (ps : Params) : Type 0 where
  spawns : Args ps → Use ps
  syncs drops lands shares : Use ps
  steals : (luck : Bool) (k : ℕ) → Use ps

abbrev pub action_of : {ps : Params} → Use ps → Action (Fields ps)
action_of {ps} (spawns a) = owner spawn (full ps a)
action_of {ps} syncs = owner sync_next (garbage ps)
action_of {ps} drops = owner drop_next (garbage ps)
action_of {ps} lands = owner land (garbage ps)
action_of {ps} shares = owner share (garbage ps)
action_of (steals luck k) = thief luck k

-- What each spawn was called with, not in the program: a `SPAWN` becomes the next one where the owner
-- is in application code and the deque has a free slot.
unfoldable pub ask :
    {A : Type 0} → (p : OwnerPc) (full_deque : Bool) (n : ℕ) → A → (ℕ → Option A) → ℕ → Option A
ask ready false n a asked = update asked n (some a)
ask p b n a asked = asked

-- A deque of tasks with these parameters, and the arguments of the calls of `SPAWN`.
pub record Calls (ps : Params) (R : Type 0) : Type 0 where
  pub machine : Machine (Fields ps) (Option R)
  pub asked : ℕ → Option (Args ps)

abbrev pub no_calls : {ps : Params} {R : Type 0} → ℕ → Calls ps R
no_calls dqsize = record { machine = init_machine dqsize; asked = λ _. none }

module _ (ps : Params) {R : Type 0} (work : Fun ps R) where
  unfoldable pub take : Calls ps R → Use ps → Machine (Fields ps) (Option R)
  unfolding declare act
  take c (spawns a) = apply ps ((declare ps work).name_spawn c.machine) a
  take c syncs = (declare ps work).name_sync c.machine
  take c u = act (load ps work) c.machine (action_of u)

  unfoldable pub ask_for : Calls ps R → Use ps → ℕ → Option (Args ps)
  unfolding ask
  ask_for c (spawns a) = let s = c.machine.sys in ask s.at (s.head == s.w.end) s.spawned a c.asked
  ask_for c u = c.asked

  abbrev pub use_task : Calls ps R → Use ps → Calls ps R
  use_task c u = record { machine = take c u; asked = ask_for c u }

  abbrev pub run_uses : List (Use ps) → Calls ps R → Calls ps R
  run_uses l c = foldl use_task c l

  take-act : (c : Calls ps R) (u : Use ps) → take c u ≡ act (load ps work) c.machine (action_of u)
  unfolding take declare
  take-act c (spawns a) =
      apply-store ps (stale ps (c.machine.d c.machine.sys.head))
        (λ d. act (load ps work) c.machine (owner spawn d)) a
  take-act c u = refl

  uses-run :
      (l : List (Use ps)) (c : Calls ps R)
      → (run_uses l c).machine ≡ run_machine (load ps work) (map action_of l) c.machine
  unfolding run_machine
  uses-run [] c = refl
  uses-run (u ∷ l) c =
      uses-run l (use_task c u) ∙ ap (run_machine (load ps work) (map action_of l)) (take-act c u)

  -- What was stored is what `SPAWN` was called with.
  abbrev pub Agreed : Calls ps R → Type 0
  Agreed c =
      (n : ℕ) (d : Fields ps)
      → c.machine.given n ≡ some d
      → (a : Args ps) × (c.asked n ≡ some a) × (d ≡ full ps a)

  room-Agreed :
      (c : Calls ps R) (a : Args ps) (b : Bool)
      → Agreed c
      → (n : ℕ) (d : Fields ps)
      → (if b
            then c.machine.given
            else update c.machine.given c.machine.sys.spawned (some (full ps a)))
          n
        ≡ some d
      → (x : Args ps) × (ask ready b c.machine.sys.spawned a c.asked n ≡ some x) × (d ≡ full ps x)
  unfolding ask
  room-Agreed c a true ok n d e = ok n d e
  room-Agreed c a false ok n d e = elim (ℕ_discrete c.machine.sys.spawned n) [
    | yes here ↦ (a, ground arith, ground (arith, e))
    | no other ↦ let (x, k, h) = ok n d (ground (arith, e)) in (x, ground (arith, k), h)
  ]

  spawn-Agreed :
      (c : Calls ps R) (a : Args ps) (p : OwnerPc)
      → Agreed c
      → (n : ℕ) (d : Fields ps)
      → (owner_writes (load ps work) spawn (full ps a) p c.machine).given n ≡ some d
      → (b : Args ps) × (ask p
            (c.machine.sys.head == c.machine.sys.w.end)
            c.machine.sys.spawned
            a
            c.asked
            n
          ≡ some b)
        × (d ≡ full ps b)
  unfolding owner_writes ask
  spawn-Agreed c a ready ok n d e =
      room-Agreed c a (c.machine.sys.head == c.machine.sys.w.end) ok n d (ground (arith, e))
  spawn-Agreed c a p ok n d e = ok n d e

  others-given :
      (x : Command) (d : Fields ps) (p : OwnerPc) (m : Machine (Fields ps) (Option R))
      → x ≢ spawn
      → (owner_writes (load ps work) x d p m).given ≡ m.given
  unfolding owner_writes
  others-given spawn d p m ne = absurd (ne refl)
  others-given x d p m ne = ground arith

  use-Agreed : (c : Calls ps R) (u : Use ps) → Agreed c → Agreed (use_task c u)
  use-Agreed c u ok n d e = by_use u (ap (λ m. m.given n) (sym (take-act c u)) ∙ e)
    where
      other :
          (x : Command)
          → x ≢ spawn
          → (act (load ps work) c.machine (owner x (garbage ps))).given n ≡ some d
          → (a : Args ps) × (c.asked n ≡ some a) × (d ≡ full ps a)
      other x ne e = ok n d (
          unfold act in
          (ap (λ g. g n) (sym (others-given x (garbage ps) c.machine.sys.at c.machine ne)) ∙ e))

      by_use :
          (u : Use ps)
          → (act (load ps work) c.machine (action_of u)).given n ≡ some d
          → (a : Args ps) × (ask_for c u n ≡ some a) × (d ≡ full ps a)
      by_use (spawns a) e =
          unfold ask_for in spawn-Agreed c a c.machine.sys.at ok n d (unfold act in e)
      by_use (steals luck k) e = unfold ask_for in ok n d (unfold act in e)
      by_use syncs e = unfold ask_for in other sync_next (λ q. ground arith) e
      by_use drops e = unfold ask_for in other drop_next (λ q. ground arith) e
      by_use lands e = unfold ask_for in other land (λ q. ground arith) e
      by_use shares e = unfold ask_for in other share (λ q. ground arith) e

  run-Agreed : (l : List (Use ps)) (c : Calls ps R) → Agreed c → Agreed (run_uses l c)
  run-Agreed [] c ok = ok
  run-Agreed (u ∷ l) c ok = run-Agreed l (use_task c u) (use-Agreed c u ok)

  -- For a task with any parameters, whose `SPAWN` stores each argument in its field and whose `f` reads
  -- each field, in any interleaving of the owner's uses of it and the thieves: what `SYNC` returned is
  -- the value of the task's function at the arguments that the matching `SPAWN` was called with.
  pub sync_any_params :
      (l : List (Use ps)) (dqsize n : ℕ) (r : Option R)
      → dqsize < 2 ^ 31
      → (run_uses l (no_calls dqsize)).machine.returned n ≡ some r
      → (a : Args ps) × ((run_uses l (no_calls dqsize)).asked n ≡ some a)
        × (r ≡ some (apply ps (declare ps work).name_call a))
  unfolding declare
  sync_any_params l dqsize n r small e =
      let same = uses-run l (no_calls dqsize) in
      let (d, given, value) =
        sync_value (load ps work) (map action_of l) dqsize small n r
          (ap (λ m. m.returned n) (sym same) ∙ e) in
      let (a, k, h) =
        run-Agreed l (no_calls dqsize) (λ i x q. absurd (ground (arith, q))) n d
          (ap (λ m. m.given n) same ∙ given) in
      (a, k, value ∙ ap (load ps work) h ∙ load-full ps work a)
