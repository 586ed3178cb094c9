-- ===== src/Victim.antt =====
-- src/lace.c, `rng`, `lace_steal_random` and `lace_steal_loop`: what an idle worker does next, and
-- from whom it steals.
pub mod Choice
pub mod Fair
pub mod Trng
mod Tests
use lace.Prelude.{
  ℕ, ◌+◌, ◌-◌, ◌*◌, ◌%◌, ◌^◌, Bool, Option, none, some, List, [], ◌∷◌, ◌++◌, ltb, leb, ◌==◌,
  if◌then◌else◌, u32,
}
use mathlib.Core.Option

-- `rng` on `*seed`: the number and the new seed. `next % 0` is a fault.
unfoldable pub rng : (seed max : ℕ) → Option (ℕ × ℕ)
rng seed max =
    let next = u32 (u32 (seed * 1103515245) + 12345) in
    if max == 0 then none else some (next % max, next)

-- What a worker does in a round, in order.
pub data Action : Type 0 where
  yield_newframe : Action  -- `lace_yield`
  steal_external : Action  -- `lace_steal_external`
  steal_from : (victim : ℕ) → Action  -- `lace_steal`
  suspend : Action  -- wait on `suspend_semaphore`

-- What the worker reads of the globals in a round.
pub record Signals : Type 0 where
  pub newframe : Bool  -- lace_newframe.t != NULL
  pub external : Bool  -- external_task != 0
  pub must_suspend : Bool

-- `workers[(worker + 1 + rng(&seed, n_workers-1)) % n_workers]`
random_victim : (n_workers worker seed : ℕ) → Option (ℕ × ℕ)
random_victim n_workers worker seed =
    Option.map (λ p. (u32 (worker + 1 + p.0) % n_workers, p.1)) (rng seed (n_workers - 1))

-- `lace_steal_random`: its actions and the new seed.
unfoldable pub steal_random : Signals → (n_workers worker seed : ℕ) → Option (List Action × ℕ)
unfolding random_victim
steal_random g n_workers worker seed =
    let first = if g.newframe then Action.yield_newframe ∷ [] else [] in
    if g.external
    then some (first ++ Action.steal_external ∷ [], seed)
    else if ltb 1 n_workers
    then Option.map (λ p. (first ++ Action.steal_from p.0 ∷ [], p.1))
        (random_victim n_workers worker seed)
    else some (first, seed)

-- The local variables of `lace_steal_loop`; `victim` is an index into `workers`.
pub record Loop : Type 0 where
  pub victim : ℕ
  pub seed : ℕ
  pub i : ℕ

-- The walk to the next victim: `victim++` and its three tests.
unfoldable pub walk : (n self victim : ℕ) → ℕ
walk n self victim =
    let a = victim + 1 in
    let b = if a == self then a + 1 else a in
    let c = if leb n b then 0 else b in if c == self then c + 1 else c

-- "Select victim": walk on, or jump to a random one for the next rounds.
unfoldable pub select_victim : (n self : ℕ) → Loop → Option Loop
unfolding walk
select_victim n self l =
    if ltb 0 l.i
    then some (record l { i = l.i - 1; victim = walk n self l.victim })
    else elim (rng l.seed 40) [
      | none ↦ none
      | some (i, seed) ↦
          Option.map (λ p. record { victim = u32 (p.0 + self + 1) % n; seed = p.1; i = i })
            (rng seed (n - 1))
    ]

-- The rest of a round.
abbrev pub answers : Signals → List Action
answers g =
    (if g.newframe then Action.yield_newframe ∷ [] else [])
    ++ ((if g.external then Action.steal_external ∷ [] else [])
        ++ (if g.must_suspend then Action.suspend ∷ [] else []))

-- One round of the `while (*quit == 0)`.
unfoldable pub steal_round : Signals → (n self : ℕ) → Loop → Option (List Action × Loop)
unfolding select_victim
steal_round g n self l =
    if ltb 1 n
    then Option.map (λ m. (Action.steal_from m.victim ∷ answers g, m)) (select_victim n self l)
    else some (answers g, l)

-- The whole loop: the actions of one round for each set of signals, until `*quit` is set.
unfoldable pub steal_loop : List Signals → (n self : ℕ) → Loop → Option (List Action)
unfolding steal_round
steal_loop [] n self l = some []
steal_loop (g ∷ later) n self l = elim (steal_round g n self l) [
  | none ↦ none
  | some (actions, m) ↦ Option.map (λ r. actions ++ r) (steal_loop later n self m)
]

-- `WorkerP.worker`, a `uint16_t`: what `lace_steal_loop` takes for the number of the worker.
abbrev pub worker_id : (worker : ℕ) → ℕ
worker_id worker = worker % 2 ^ 16

-- The variables before the loop.
abbrev pub start_loop : (worker : ℕ) → Loop
start_loop worker = record { victim = worker_id worker; seed = worker_id worker; i = 0 }
