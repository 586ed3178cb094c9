-- ===== src/Victim/Choice.antt =====
-- The victims that idle workers choose.
use lace.Prelude.{
  Bool-cases, inl, inr, ℕ, ◌+◌, ◌-◌, ◌*◌, ◌%◌, ◌^◌, ◌<◌, ◌≡◌, ◌≢◌, false, some, [], ◌∷◌, ◌++◌, ltb,
  ◌==◌, if◌then◌else◌, u32, arith,
}
use native.Mathlib.Nat.{mod-eq_of_lt}
use native.Mathlib.Decide.{dec_lt}
use lace.Victim.{
  answers, rng, Action, Signals, Loop, walk, select_victim, steal_round, steal_random,
}

-- A remainder of a number below twice the modulus.
mod_once : (x n : ℕ) → 0 < n → x < n + n → x % n ≡ (if ltb x n then x else x - n)
mod_once x n pos h = elim (dec_lt x n) [
  | yes low ↦ ground (arith, mod-eq_of_lt low)
  | no high ↦ ground (arith, mod_back)
]
  where
    mod_back : ¬ (x < n) → x % n ≡ x - n
    mod_back high = grind arith

-- `walk` goes on to the next worker in cyclic order, without itself.
pub walk_cyclic :
    (n self victim : ℕ)
    → 1 < n
    → self < n
    → victim < n
    → (walk n self victim
        ≡ (if (victim + 1) % n == self then (victim + 2) % n else (victim + 1) % n))
      × (walk n self victim < n)
      × (walk n self victim ≢ self)
unfolding walk
walk_cyclic n self victim many here there =
    ground (arith, mod_once (victim + 1) n, mod_once (victim + 2) n)

rng-total :
    (seed max : ℕ)
    → 0 < max
    → (r : ℕ) × (s : ℕ) × (rng seed max ≡ some (r, s)) × (r < max) × (s < 2 ^ 32)
unfolding rng
rng-total seed max pos = (
  u32 (u32 (seed * 1103515245) + 12345) % max,
  u32 (u32 (seed * 1103515245) + 12345),
  ground arith,
  omega arith,
  omega arith,
)

jump_once :
    (n self r : ℕ)
    → 1 < n
    → n < 2 ^ 31
    → self < n
    → r < n - 1
    → u32 (r + self + 1) % n ≡ (if ltb (r + self + 1) n then r + self + 1 else r + self + 1 - n)
jump_once n self r many small here low =
    let e : u32 (r + self + 1) ≡ r + self + 1 = omega arith in
    rw e (mod_once (r + self + 1) n (omega arith) (omega arith))

-- The random number that leads from a worker to another.
jump_to : (n self victim : ℕ) → ℕ
jump_to n self victim = if ltb self victim then victim - self - 1 else victim + n - self - 1

-- `(r + worker + 1) % n` on 32-bit words, for a random r below n - 1.
jump_fits :
    (n self r : ℕ)
    → 1 < n
    → n < 2 ^ 31
    → self < n
    → r < n - 1
    → (u32 (r + self + 1) % n < n) × (u32 (r + self + 1) % n ≢ self)
jump_fits n self r many small here low = ground (arith, jump_once n self r)

-- The jump reaches every other worker, each by exactly one random number.
pub jump_bijective :
    (n self victim : ℕ)
    → 1 < n
    → n < 2 ^ 31
    → self < n
    → victim < n
    → victim ≢ self
    → (r : ℕ) × (r < n - 1)
      × (u32 (r + self + 1) % n ≡ victim)
      × ((q : ℕ) → q < n - 1 → u32 (q + self + 1) % n ≡ victim → q ≡ r)
unfolding jump_to
jump_bijective n self victim many small here there other = (
  jump_to n self victim,
  ground arith,
  ground (arith, jump_once n self (jump_to n self victim)),
  λ q low e. ground (arith, jump_once n self q),
)

-- The loop's variables between rounds.
pub record IsSane (n : ℕ) (l : Loop) : Type 0 where
  pub in_range : l.victim < n
  pub few : l.i < 40

select-IsSane :
    (n self : ℕ) (l : Loop)
    → 1 < n
    → n < 2 ^ 31
    → self < n
    → IsSane n l
    → (m : Loop) × (select_victim n self l ≡ some m) × IsSane n m × (m.victim ≢ self)
unfolding select_victim
select-IsSane n self l many small here sane = elim (dec_lt 0 l.i) [
  | yes walking ↦
      let w = walk_cyclic n self l.victim many here sane.in_range in
      (
        record l { i = l.i - 1; victim = walk n self l.victim },
        ground arith,
        record { in_range = w.1; few = ground (arith, sane.few) },
        w.2,
      )
  | no jumping ↦
      let (i, seed, first, low, _) = rng-total l.seed 40 (omega arith) in
      let (r, seed', second, below, _) = rng-total seed (n - 1) (omega arith) in
      let fits = jump_fits n self r many small here below in
      (
        record { victim = u32 (r + self + 1) % n; seed = seed'; i = i },
        ground (arith, first, second),
        record { in_range = fits.0; few = low },
        fits.1,
      )
]

-- Every round of `lace_steal_loop` with more than one worker ends, steals from a worker in range
-- other than itself, then answers the signals in the order newframe, external task, suspension,
-- and leaves variables with which the next round does the same.
pub steal_round_lem :
    (g : Signals) (n self : ℕ) (l : Loop)
    → 1 < n
    → n < 2 ^ 31
    → self < n
    → IsSane n l
    → (m : Loop) × (steal_round g n self l ≡ some (Action.steal_from m.victim ∷ answers g, m))
      × IsSane n m
      × (m.victim ≢ self)
unfolding steal_round
steal_round_lem g n self l many small here sane =
    let (m, e, ok, other) = select-IsSane n self l many small here sane in
    (m, ground (arith, e), ok, other)

-- `lace_steal_random` always ends; an external task comes before stealing, and with more than one
-- worker and no external task it steals from a worker in range other than itself.
pub steal_random_lem :
    (g : Signals) (n self seed : ℕ)
    → n < 2 ^ 31
    → self < n
    → (victim : ℕ) × (seed' : ℕ) × (steal_random g n self seed
        ≡ some (
          (if g.newframe then Action.yield_newframe ∷ [] else [])
              ++ (if g.external
                  then Action.steal_external ∷ []
                  else if ltb 1 n
                  then Action.steal_from victim ∷ []
                  else []),
          seed',
        ))
      × (g.external ≡ false → 1 < n → (victim < n) × (victim ≢ self))
unfolding steal_random
steal_random_lem g n self seed small here = elim (Bool-cases g.external) [
  | inl external ↦ (0, seed, ground arith, λ e. cc)
  | inr none_external ↦ elim (dec_lt 1 n) [
    | no alone ↦ (0, seed, ground arith, λ e many. absurd (alone many))
    | yes many ↦
        let (r, seed', e, low, _) = rng-total seed (n - 1) (omega arith) in
        let swap : self + 1 + r ≡ r + self + 1 = omega arith in
        (
          u32 (r + self + 1) % n,
          seed',
          ground (arith, e, swap),
          λ _ _. jump_fits n self r many small here low,
        )
  ]
]
