-- ===== src/Suspend/Invariant.antt =====
-- The invariant of suspending and resuming: who counts as running, and what the phase of the caller
-- in charge says of the workers.
use lace.Prelude.{
  ℕ, zero, suc, ◌+◌, ◌≤◌, ◌<◌, ◌≡◌, refl, Bool, true, false, arith, total, total-const,
}
use lace.Suspend.{
  intermediate, users, Worker, asleep, rejoining, running, leaving, Caller, out, posting, active,
  suspending, suspending_from, gathering, setting, stopping, clearing, closing, Suspension,
  just_started,
}

abbrev pub rejoins : Worker → ℕ
rejoins rejoining = 1
rejoins _ = 0

-- It is counted in `workers_running`.
abbrev pub runs : Worker → ℕ
runs running = 1
runs leaving = 1
runs _ = 0

-- It is counted in `lace_awaken_count`.
abbrev pub uses : Caller → ℕ
uses active = 1
uses suspending = 1
uses (suspending_from _) = 1
uses _ = 0

-- It holds the intermediate state.
abbrev pub in_charge : Caller → Bool
in_charge (posting _) = true
in_charge gathering = true
in_charge setting = true
in_charge stopping = true
in_charge clearing = true
in_charge closing = true
in_charge _ = false

abbrev pub rejoiners : (ℕ → Worker) → ℕ → ℕ
rejoiners w n = total (λ i. rejoins (w i)) n

abbrev pub runners : (ℕ → Worker) → ℕ → ℕ
runners w n = total (λ i. runs (w i)) n

abbrev pub all_users : (ℕ → Caller) → ℕ → ℕ
all_users c m = total (λ j. uses (c j)) m

-- What a phase says of `n` workers: the semaphore, the rejoining ones, the running ones,
-- `must_suspend`.
abbrev pub Stands : Caller → (n sem back run : ℕ) → Bool → Type 0
Stands (posting k) n sem back run must = (sem + back + run + k ≡ n) × (must ≡ false)
Stands gathering n sem back run must = (sem + back + run ≡ n) × (must ≡ false)
Stands setting n sem back run must = (sem + back ≡ 0) × (run ≡ n) × (must ≡ false)
Stands stopping n sem back run must = (sem + back ≡ 0) × (run ≤ n) × (must ≡ true)
Stands clearing n sem back run must = (sem + back + run ≡ 0) × (must ≡ true)
Stands closing n sem back run must = (sem + back + run ≡ 0) × (must ≡ false)
Stands _ n sem back run must = Unit

-- The same with nobody in charge.
abbrev pub Settled : (users n sem back run : ℕ) → Bool → Type 0
Settled zero n sem back run must = (sem + back + run ≡ 0) × (must ≡ false)
Settled (suc k) n sem back run must = (sem + back + run ≡ n) × (must ≡ false)

-- `n` workers and `m` callers.
pub record Inv (n m : ℕ) (s : Suspension) : Type 0 where
  pub counted : s.workers_running ≡ runners s.worker n
  pub leavers : (i : ℕ) → i < n → s.worker i ≡ leaving → s.must_suspend ≡ true
  pub one :
      (i j : ℕ)
      → i < m
      → j < m
      → in_charge (s.caller i) ≡ true
      → in_charge (s.caller j) ≡ true
      → i ≡ j
  pub charged : (j : ℕ) → j < m → in_charge (s.caller j) ≡ true → s.awaken_count ≡ intermediate
  pub held : s.awaken_count ≡ intermediate → (j : ℕ) × (j < m) × (in_charge (s.caller j) ≡ true)
  pub counts : (k : ℕ) → s.awaken_count ≡ users k → all_users s.caller m ≡ k
  pub quiet : s.awaken_count ≡ intermediate → all_users s.caller m ≡ 0
  pub settled :
      (k : ℕ)
      → s.awaken_count ≡ users k
      → Settled k n s.semaphore (rejoiners s.worker n) (runners s.worker n) s.must_suspend
  pub stands :
      (j : ℕ)
      → j < m
      → Stands (s.caller j) n s.semaphore (rejoiners s.worker n) (runners s.worker n) s.must_suspend

pub just_started-Inv : (n m : ℕ) → Inv n m just_started
just_started-Inv n m = record {
  counted = ground (arith, total-const (λ i. runs asleep) 0 n (λ i p. refl));
  leavers = λ i p e. ground arith;
  one = λ i j p q e f. ground arith;
  charged = λ j p e. ground arith;
  held = λ e. ground arith;
  counts = λ k e. ground (arith, total-const (λ j. uses out) 0 m (λ i p. refl));
  quiet = λ e. ground arith;
  settled = λ k e. ground (
    arith,
    total-const (λ i. runs asleep) 0 n (λ i p. refl),
    total-const (λ i. rejoins asleep) 0 n (λ i p. refl),
  );
  stands = λ j p. tt;
}
