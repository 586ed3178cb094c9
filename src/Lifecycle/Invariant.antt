-- ===== src/Lifecycle/Invariant.antt =====
-- The invariant of the threads: who counts as running, and what the caller knows of the count.
use lace.Prelude.{ℕ, ◌^◌, ◌≤◌, ◌<◌, ◌≡◌, refl, Bool, true, false, arith, total, total-const}
use lace.Lifecycle.{
  Worker, unborn, initializing, asleep, joining, looping, working, ending, gone, Caller, creating,
  quitting, draining, reporting, freeing, stopped, Threads, lace_start,
}

-- It is counted in `workers_running`.
abbrev pub runs : Worker → ℕ
runs looping = 1
runs working = 1
runs ending = 1
runs _ = 0

-- What a worker may be before and after `lace_quits` is set.
abbrev pub MayBe : (quits : Bool) → Worker → Type 0
MayBe false ending = ⊥
MayBe false gone = ⊥
MayBe true unborn = ⊥
MayBe true initializing = ⊥
MayBe true asleep = ⊥
MayBe true joining = ⊥
MayBe _ _ = Unit

abbrev pub quits_in : Caller → Bool
quits_in draining = true
quits_in reporting = true
quits_in (freeing _) = true
quits_in stopped = true
quits_in _ = false

-- What the caller knows of the count.
abbrev pub Knows : (n running : ℕ) → Caller → Type 0
Knows n running quitting = running ≡ n
Knows n running reporting = running ≡ 0
Knows n running (freeing _) = running ≡ 0
Knows n running stopped = running ≡ 0
Knows n running _ = Unit

-- The first thread that is still to be created.
abbrev pub next_thread : (n : ℕ) → Caller → ℕ
next_thread n (creating k) = k
next_thread n _ = n

pub record Inv (n : ℕ) (s : Threads) : Type 0 where
  pub small : n < 2 ^ 32
  pub quits : s.lace_quits ≡ quits_in s.caller
  pub count : s.workers_running ≡ total (λ i. runs (s.worker i)) n
  pub may : (i : ℕ) → i < n → MayBe (quits_in s.caller) (s.worker i)
  pub knows : Knows n s.workers_running s.caller
  pub bound : next_thread n s.caller ≤ n
  pub born : (i : ℕ) → i < n → next_thread n s.caller ≤ i → s.worker i ≡ unborn

pub runs-le : (w : Worker) → runs w ≤ 1
runs-le looping = omega arith
runs-le working = omega arith
runs-le ending = omega arith
runs-le _ = omega arith

pub lace_start-Inv : (n : ℕ) → n < 2 ^ 32 → Inv n lace_start
lace_start-Inv n small = record {
  small = small;
  quits = refl;
  count = ground (arith, total-const (λ _. 0) 0 n (λ _ _. refl) (omega arith));
  may = λ i p. tt;
  knows = tt;
  bound = omega arith;
  born = λ i p q. refl;
}
