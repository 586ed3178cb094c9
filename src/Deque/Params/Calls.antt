-- ===== src/Deque/Params/Calls.antt =====
-- What a task with any parameters and no result is called with.
use lace.Prelude.{
  foldl, ℕ, ◌<◌, ◌^◌, ◌≡◌, ◌≢◌, refl, sym, ap, ◌∙◌, Option, some, none, List, [], ◌∷◌, map, Bool,
  true, false, ◌==◌, if◌then◌else◌, arith, update,
}
use native.Mathlib.Decide.{ℕ_discrete}
use lace.Deque.State.{OwnerPc, ready, Command, spawn, sync_next, drop_next, land, share}
use lace.Deque.Value.{owner}
use lace.Deque.Void.{VoidMachine, init_void, void_act, void_owner, void_thief, void_spawn, run_void}
use lace.Deque.Void.Called.{synced_was_called}
use lace.Deque.Params.{Params, Args, Fun, apply, Fields, garbage, old_fields, load, declare_void}
use lace.Deque.Params.Returns.{
  full, apply-store, load-full, Use, spawns, syncs, drops, lands, shares, steals, action_of, ask,
}

-- A deque of tasks with these parameters, and the arguments of the calls of `SPAWN`.
pub record VoidCalls (ps : Params) : Type 0 where
  pub machine : VoidMachine (Fields ps)
  pub asked : ℕ → Option (Args ps)

abbrev pub no_void_calls : {ps : Params} → ℕ → VoidCalls ps
no_void_calls dqsize = record { machine = init_void dqsize; asked = λ _. none }

module _ (ps : Params) where
  unfoldable pub take_void : VoidCalls ps → Use ps → VoidMachine (Fields ps)
  unfolding declare_void void_act
  take_void c (spawns a) = apply ps ((declare_void ps).name_spawn c.machine) a
  take_void c syncs = (declare_void ps).name_sync c.machine
  take_void c u = void_act c.machine (action_of u)

  unfoldable pub void_ask_for : VoidCalls ps → Use ps → ℕ → Option (Args ps)
  unfolding ask
  void_ask_for c (spawns a) =
      let s = c.machine.sys in ask s.at (s.head == s.w.end) s.spawned a c.asked
  void_ask_for c u = c.asked

  abbrev pub use_void : VoidCalls ps → Use ps → VoidCalls ps
  use_void c u = record { machine = take_void c u; asked = void_ask_for c u }

  abbrev pub run_void_uses : List (Use ps) → VoidCalls ps → VoidCalls ps
  run_void_uses l c = foldl use_void c l

  take_void-act : (c : VoidCalls ps) (u : Use ps) → take_void c u ≡ void_act c.machine (action_of u)
  unfolding take_void declare_void
  take_void-act c (spawns a) =
      apply-store ps (old_fields ps (c.machine.d c.machine.sys.head))
        (λ d. void_act c.machine (owner spawn d)) a
  take_void-act c u = refl

  void-run :
      (l : List (Use ps)) (c : VoidCalls ps)
      → (run_void_uses l c).machine ≡ run_void (map action_of l) c.machine
  unfolding run_void
  void-run [] c = refl
  void-run (u ∷ l) c =
      void-run l (use_void c u) ∙ ap (run_void (map action_of l)) (take_void-act c u)

  -- What was stored is what `SPAWN` was called with.
  abbrev pub Agreed : VoidCalls ps → Type 0
  Agreed c =
      (n : ℕ) (d : Fields ps)
      → c.machine.given n ≡ some d
      → (a : Args ps) × (c.asked n ≡ some a) × (d ≡ full ps a)

  room-Agreed :
      (c : VoidCalls ps) (a : Args ps) (b : Bool)
      → Agreed c
      → (n : ℕ) (d : Fields ps)
      → (if b
            then c.machine.given
            else update c.machine.given c.machine.sys.spawned (some (full ps a)))
          n
        ≡ some d
      → (x : Args ps) × (ask ready b c.machine.sys.spawned a c.asked n ≡ some x) × (d ≡ full ps x)
  unfolding ask
  room-Agreed c a true ok n d e = ok n d e
  room-Agreed c a false ok n d e = elim (ℕ_discrete c.machine.sys.spawned n) [
    | yes here ↦ (a, ground arith, ground (arith, e))
    | no other ↦ let (x, k, h) = ok n d (ground (arith, e)) in (x, ground (arith, k), h)
  ]

  spawn-Agreed :
      (c : VoidCalls ps) (a : Args ps) (p : OwnerPc)
      → Agreed c
      → (n : ℕ) (d : Fields ps) → (void_owner spawn (full ps a) p c.machine).given n ≡ some d
      → (b : Args ps) × (ask p
            (c.machine.sys.head == c.machine.sys.w.end)
            c.machine.sys.spawned
            a
            c.asked
            n
          ≡ some b)
        × (d ≡ full ps b)
  unfolding void_owner void_spawn ask
  spawn-Agreed c a ready ok n d e =
      room-Agreed c a (c.machine.sys.head == c.machine.sys.w.end) ok n d (ground (arith, e))
  spawn-Agreed c a p ok n d e = ok n d e

  others-given :
      (x : Command) (d : Fields ps) (p : OwnerPc) (m : VoidMachine (Fields ps))
      → x ≢ spawn
      → (void_owner x d p m).given ≡ m.given
  unfolding void_owner
  others-given spawn d p m ne = absurd (ne refl)
  others-given x d p m ne = ground arith

  use-Agreed : (c : VoidCalls ps) (u : Use ps) → Agreed c → Agreed (use_void c u)
  unfolding void_act void_thief
  use-Agreed c u ok n d e = by_use u (ap (λ m. m.given n) (sym (take_void-act c u)) ∙ e)
    where
      other :
          (x : Command)
          → x ≢ spawn
          → (void_act c.machine (owner x (garbage ps))).given n ≡ some d
          → (a : Args ps) × (c.asked n ≡ some a) × (d ≡ full ps a)
      other x ne e =
          ok n d
            (ap (λ g. g n) (sym (others-given x (garbage ps) c.machine.sys.at c.machine ne)) ∙ e)

      by_use :
          (u : Use ps)
          → (void_act c.machine (action_of u)).given n ≡ some d
          → (a : Args ps) × (void_ask_for c u n ≡ some a) × (d ≡ full ps a)
      by_use (spawns a) e = unfold void_ask_for in spawn-Agreed c a c.machine.sys.at ok n d e
      by_use (steals luck k) e = unfold void_ask_for in ok n d (ground (arith, e))
      by_use syncs e = unfold void_ask_for in other sync_next (λ q. ground arith) e
      by_use drops e = unfold void_ask_for in other drop_next (λ q. ground arith) e
      by_use lands e = unfold void_ask_for in other land (λ q. ground arith) e
      by_use shares e = unfold void_ask_for in other share (λ q. ground arith) e

  run-Agreed : (l : List (Use ps)) (c : VoidCalls ps) → Agreed c → Agreed (run_void_uses l c)
  run-Agreed [] c ok = ok
  run-Agreed (u ∷ l) c ok = run-Agreed l (use_void c u) (use-Agreed c u ok)

  -- For a task without a result and with any parameters, whose `SPAWN` stores each argument in its
  -- field, in any interleaving of the owner's uses of it and the thieves: where `SYNC` has returned, the
  -- task was started exactly once, and any function of the parameters that is called with what the
  -- fields then held is called with the arguments of the matching `SPAWN`.
  pub void_any_params :
      {R : Type 0} (work : Fun ps R) (l : List (Use ps)) (dqsize n : ℕ)
      → dqsize < 2 ^ 31
      → (run_void_uses l (no_void_calls dqsize)).machine.synced n ≡ true
      → ((run_void_uses l (no_void_calls dqsize)).machine.sys.runs n ≡ 1)
        × ((a : Args ps) × ((d : Fields ps) × ((run_void_uses l (no_void_calls dqsize)).asked n
                ≡ some a)
              × ((run_void_uses l (no_void_calls dqsize)).machine.called n ≡ some d)
              × ((declare_void ps).name_call work d ≡ some (apply ps work a))))
  unfolding declare_void
  void_any_params work l dqsize n small e =
      let same = void-run l (no_void_calls dqsize) in
      let (once, (d, called, given)) =
        synced_was_called (map action_of l) dqsize small n (ap (λ m. m.synced n) (sym same) ∙ e) in
      let (a, k, h) =
        run-Agreed l (no_void_calls dqsize) (λ i x q. absurd (ground (arith, q))) n d
          (ap (λ m. m.given n) same ∙ given) in
      (
        ap (λ m. m.sys.runs n) same ∙ once,
        (a, (d, k, ap (λ m. m.called n) same ∙ called, ap (load ps work) h ∙ load-full ps work a)),
      )
