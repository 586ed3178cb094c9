-- ===== src/Victim/Fair.antt =====
-- Nobody steals from itself or from beyond the workers.
use lace.Prelude.{ℕ, ◌^◌, ◌<◌, ◌≤◌, ◌≡◌, ◌≢◌, refl, sym, subst, some, List, [], ◌∷◌, ◌++◌, arith}
use native.Mathlib.Decide.{dec_lt}
use lace.Victim.{answers, Action, Signals, Loop, steal_round, steal_loop, start_loop, worker_id}
use lace.Victim.Choice.{IsSane, steal_round_lem}

-- A steal is from another worker.
abbrev pub IsFair : (n self : ℕ) → List Action → Type 0
IsFair n self [] = Unit
IsFair n self (Action.steal_from v ∷ l) = (v < n) × (v ≢ self) × IsFair n self l
IsFair n self (_ ∷ l) = IsFair n self l

IsFair-append :
    (n self : ℕ) (a b : List Action) → IsFair n self a → IsFair n self b → IsFair n self (a ++ b)
IsFair-append n self [] b fa fb = fb
IsFair-append n self (Action.steal_from v ∷ a) b fa fb =
    (fa.0, fa.1, IsFair-append n self a b fa.2 fb)
IsFair-append n self (Action.yield_newframe ∷ a) b fa fb = IsFair-append n self a b fa fb
IsFair-append n self (Action.steal_external ∷ a) b fa fb = IsFair-append n self a b fa fb
IsFair-append n self (Action.suspend ∷ a) b fa fb = IsFair-append n self a b fa fb

answers-IsFair : (n self : ℕ) (g : Signals) → IsFair n self (answers g)
answers-IsFair n self g = ground arith

-- A round ends with fair actions, and the next can follow.
steal_round-IsFair :
    (g : Signals) (n self : ℕ) (l : Loop)
    → n < 2 ^ 31
    → self < n
    → IsSane n l
    → (a : List Action) × (m : Loop) × (steal_round g n self l ≡ some (a, m))
      × IsSane n m
      × IsFair n self a
unfolding steal_round
steal_round-IsFair g n self l small here sane = elim (dec_lt 1 n) [
  | yes many ↦
      let (m, e, ok, other) = steal_round_lem g n self l many small here sane in
      (_, m, e, ok, (ok.in_range, other, answers-IsFair n self g))
  | no alone ↦ (answers g, l, ground arith, sane, answers-IsFair n self g)
]

loop-IsFair :
    (signals : List Signals) (n self : ℕ) (l : Loop)
    → n < 2 ^ 31
    → self < n
    → IsSane n l
    → (a : List Action) × (steal_loop signals n self l ≡ some a) × IsFair n self a
unfolding steal_loop
loop-IsFair [] n self l small here sane = ([], refl, tt)
loop-IsFair (g ∷ later) n self l small here sane =
    let (a, m, e, ok, fair) = steal_round-IsFair g n self l small here sane in
    let (b, e', fair') = loop-IsFair later n self m small here ok in
    (a ++ b, ground (arith, e, e'), IsFair-append n self a b fair fair')

-- However long `lace_steal_loop` runs and whatever signals it sees, with at most 2 ^ 16 workers, whose
-- numbers fit in the `uint16_t` of `WorkerP`: it never faults, and each steal is from a worker in
-- range other than the one that runs it.
pub steal_loop-IsFair :
    (signals : List Signals) (n worker : ℕ)
    → n ≤ 2 ^ 16
    → worker < n
    → (a : List Action) × (steal_loop signals n (worker_id worker) (start_loop worker) ≡ some a)
      × IsFair n worker a
steal_loop-IsFair signals n worker small here =
    let same : worker_id worker ≡ worker = omega arith in
    subst
      (λ id.
        (a : List Action) × (steal_loop signals n id (record { victim = id; seed = id; i = 0 })
          ≡ some a)
        × IsFair n worker a)
      (sym same)
      (loop-IsFair signals n worker (record { victim = worker; seed = worker; i = 0 }) (omega arith)
        here (record { in_range = here; few = omega arith }))
