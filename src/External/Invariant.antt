-- ===== src/External/Invariant.antt =====
-- The invariant of the external tasks: the counter counts the shared ones, the flag has one owner,
-- and whoever sleeps has a reason to.
use lace.Prelude.{
  ℕ, ◌<◌, ◌≡◌, ◌≢◌, refl, sym, ◌∙◌, Bool, true, false, some, arith, total, total-ext,
}
use lace.External.{
  Kind, shared, exclusive, Pc, asleep, draining, posting, queued, taken, finished, Externals, wake,
}

-- A shared task between its two critical sections.
abbrev pub shares : Pc → ℕ
shares (posting shared _) = 1
shares (queued shared) = 1
shares (taken shared) = 1
shares (finished shared) = 1
shares _ = 0

-- An exclusive one past its wait.
abbrev pub is_lone : Pc → Bool
is_lone (posting exclusive _) = true
is_lone (queued exclusive) = true
is_lone (taken exclusive) = true
is_lone (finished exclusive) = true
is_lone _ = false

-- It has set `external_task_exclusive`.
abbrev pub is_owner : Pc → Bool
is_owner (draining _) = true
is_owner (posting exclusive _) = true
is_owner (queued exclusive) = true
is_owner (taken exclusive) = true
is_owner (finished exclusive) = true
is_owner _ = false

abbrev pub is_queued : Pc → Bool
is_queued (queued _) = true
is_queued _ = false

abbrev pub sharing : (ℕ → Pc) → ℕ → ℕ
sharing pc i = shares (pc i)

pub record Core (n : ℕ) (s : Externals) : Type 0 where
  pub counts : s.counter ≡ total (sharing s.pc) n
  pub owned : s.is_exclusive ≡ true → (i : ℕ) × (i < n) × (is_owner (s.pc i) ≡ true)
  pub owners : (i : ℕ) → i < n → is_owner (s.pc i) ≡ true → s.is_exclusive ≡ true
  pub one : (i j : ℕ) → i < n → j < n → is_owner (s.pc i) ≡ true → is_owner (s.pc j) ≡ true → i ≡ j
  pub alone : (i : ℕ) → i < n → is_lone (s.pc i) ≡ true → s.counter ≡ 0
  pub offered : (i : ℕ) → s.external_task ≡ some i → (i < n) × (is_queued (s.pc i) ≡ true)
  pub listed : (i : ℕ) → i < n → s.pc i ≡ queued exclusive → s.external_task ≡ some i

-- Who sleeps has not missed its broadcast.
pub record Sleepers (n : ℕ) (s : Externals) : Type 0 where
  pub waits : (i : ℕ) (k : Kind) → i < n → s.pc i ≡ asleep k false → s.is_exclusive ≡ true
  pub drains : (i : ℕ) → i < n → s.pc i ≡ draining false → 0 < s.counter

pub record Inv (n : ℕ) (s : Externals) : Type 0 where
  pub core : Core n s
  pub sleepers : Sleepers n s

pub wake_facts :
    (p : Pc)
    → (shares (wake p) ≡ shares p)
      × (is_owner (wake p) ≡ is_owner p)
      × (is_lone (wake p) ≡ is_lone p)
      × (is_queued (wake p) ≡ is_queued p)
      × ((k : Kind) → wake p ≢ asleep k false)
      × (wake p ≢ draining false)
      × (wake p ≡ queued exclusive → p ≡ queued exclusive)
wake_facts (asleep k b) =
    (refl, refl, refl, refl, λ k e. ground arith, λ e. ground arith, λ e. ground arith)
wake_facts (draining b) =
    (refl, refl, refl, refl, λ k e. ground arith, λ e. ground arith, λ e. ground arith)
wake_facts _ = (refl, refl, refl, refl, λ k e. ground arith, λ e. ground arith, λ e. e)

pub lone_owner : (p : Pc) → is_lone p ≡ true → is_owner p ≡ true
lone_owner p e = ground arith

-- A broadcast leaves nobody asleep.
pub wake-Inv : (n : ℕ) (s : Externals) → Core n s → Inv n (record s { pc = λ j. wake (s.pc j) })
wake-Inv n s core = record {
  core = record {
    counts = core.counts ∙ sym (total-ext _ _ n (λ i p. (wake_facts (s.pc i)).0));
    owned = λ e. let (i, p, o) = core.owned e in (i, p, (wake_facts (s.pc i)).1 ∙ o);
    owners = λ i p o. core.owners i p (sym (wake_facts (s.pc i)).1 ∙ o);
    one = λ i j p q o r.
        core.one i j p q (sym (wake_facts (s.pc i)).1 ∙ o) (sym (wake_facts (s.pc j)).1 ∙ r);
    alone = λ i p l. core.alone i p (sym (wake_facts (s.pc i)).2 ∙ l);
    offered = λ i e. ((core.offered i e).0, (wake_facts (s.pc i)).3 ∙ (core.offered i e).1);
    listed = λ i p q. core.listed i p ((wake_facts (s.pc i)).6 q);
  };
  sleepers = record {
    waits = λ i k p e. absurd ((wake_facts (s.pc i)).4 k e);
    drains = λ i p e. absurd ((wake_facts (s.pc i)).5 e);
  };
}
