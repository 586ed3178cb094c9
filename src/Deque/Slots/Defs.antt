-- ===== src/Deque/Slots/Defs.antt =====
-- The invariant of the slots of a deque. It names the tail, the first index that is not in use,
-- the array, the calls of `lace_steal`, and the count of the runs.
use lace.Prelude.{ℕ, ◌≤◌, ◌<◌, ◌≡◌, ◌≢◌, ◌⊎◌, Bool, true, Option, none, some}
use lace.Deque.State.{Thief, task, worker, completed, ThiefPc, won, marked, running}

-- The slot that a thief has won and not given back.
abbrev pub claim : ThiefPc → Option ℕ
claim (won i) = some i
claim (marked i) = some i
claim (running i) = some i
claim _ = none

-- How the slot looks while thief `j` holds it, with the runs of its task.
abbrev pub Agree : ThiefPc → ℕ → Thief → ℕ → Type 0
Agree (won _) j t n = (t ≡ task) × (n ≡ 0)
Agree (marked _) j t n = (t ≡ worker j) × (n ≡ 0)
Agree (running _) j t n = (t ≡ worker j) × (n ≡ 1)
Agree _ j t n = Unit

-- A slot below the tail: its thief is done, or there is one.
abbrev pub Taken : (ℕ → ThiefPc) → ℕ → Thief → ℕ → Type 0
Taken pc i t n = (t ≡ completed) × (n ≡ 1) ⊎ ((j : ℕ) × (claim (pc j) ≡ some i))

-- What became of spawn `n`: it was run, it is in the deque, or it was dropped.
abbrev pub Whereabouts : ℕ → (ℕ → ℕ) → (ℕ → ℕ) → (ℕ → Bool) → ℕ → Type 0
Whereabouts bound f runs dropped n =
    (runs n ≡ 1) ⊎ ((i : ℕ) × (i < bound) × (f i ≡ n)) ⊎ (dropped n ≡ true)

pub record Slots (tail bound : ℕ) (thief : ℕ → Thief) (f : ℕ → ℕ) (pc : ℕ → ThiefPc) (spawned : ℕ)
    (runs : ℕ → ℕ) (dropped : ℕ → Bool) : Type 0 where
  pub waiting : (i : ℕ) → tail ≤ i → i < bound → (thief i ≡ task) × (runs (f i) ≡ 0)
  pub held :
      (j i : ℕ)
      → claim (pc j) ≡ some i
      → (i < tail) × (i < bound) × Agree (pc j) j (thief i) (runs (f i))
  pub unique : (j k i : ℕ) → claim (pc j) ≡ some i → claim (pc k) ≡ some i → j ≡ k
  pub covered : (i : ℕ) → i < tail → i < bound → Taken pc i (thief i) (runs (f i))
  pub dated : (i : ℕ) → i < bound → f i < spawned
  pub distinct : (i j : ℕ) → i < bound → j < bound → f i ≡ f j → i ≡ j
  pub once : (n : ℕ) → runs n ≤ 1
  pub unborn : (n : ℕ) → spawned ≤ n → runs n ≡ 0
  pub kept : (n : ℕ) → n < spawned → Whereabouts bound f runs dropped n
  pub discarded : (n : ℕ) → dropped n ≡ true → (n < spawned) × (runs n ≡ 0)
  pub absent : (n i : ℕ) → dropped n ≡ true → i < bound → f i ≢ n
