-- ===== src/Deque/Slots/Stolen.antt =====
-- The thieves' changes to the slots: a call of `lace_steal` wins a slot, marks it, runs its task
-- and gives it back.
use lace.Prelude.{ℕ, ◌+◌, ◌<◌, ◌≡◌, inl, inr, Bool, none, some, arith, refl, ◌∙◌, update, bump}
use native.Mathlib.Decide.{ℕ_discrete}
use lace.Deque.State.{Thief, worker, completed, ThiefPc, won, marked, running, rest, StealResult}
use lace.Deque.Slots.Defs.{claim, Taken, Slots}

-- Claims that stay keep a slot taken.
Taken-keep :
    (pc pc' : ℕ → ThiefPc) {i : ℕ} {t t' : Thief} {n n' : ℕ}
    → t' ≡ t
    → n' ≡ n
    → ((j : ℕ) → claim (pc j) ≡ some i → claim (pc' j) ≡ some i)
    → Taken pc i t n
    → Taken pc' i t' n'
Taken-keep pc pc' et en stays (inl fact) = inl (et ∙ fact.0, en ∙ fact.1)
Taken-keep pc pc' et en stays (inr (j, c)) = inr (j, stays j c)

module _ {tail bound : ℕ} {thief : ℕ → Thief} {f : ℕ → ℕ} {pc : ℕ → ThiefPc} {spawned : ℕ}
    {runs : ℕ → ℕ} {dropped : ℕ → Bool}
    (sl : Slots tail bound thief f pc spawned runs dropped) where
  open sl use {
    waiting, held, unique, covered, dated, distinct, once, unborn, kept, discarded, absent,
  }

  -- A step between points where the call holds no slot.
  pub Slots-idle :
      (k : ℕ) (p : ThiefPc)
      → claim (pc k) ≡ none
      → claim p ≡ none
      → Slots tail bound thief f (update pc k p) spawned runs dropped
  Slots-idle k p none_before none_after = record {
    waiting = waiting;
    held = λ j i e. ground (arith, held j i);
    unique = λ a b i p q. ground (arith, unique a b i);
    covered = λ i p q. Taken-keep pc _ refl refl (λ j c. ground arith) (covered i p q);
    dated = dated;
    distinct = distinct;
    once = once;
    unborn = unborn;
    kept = kept;
    discarded = discarded;
    absent = absent;
  }

  -- The compare-exchange succeeds: the slot at the tail is this call's.
  pub Slots-win :
      (k : ℕ)
      → claim (pc k) ≡ none
      → tail < bound
      → Slots (tail + 1) bound thief f (update pc k (won tail)) spawned runs dropped
  Slots-win k none_before low = record {
    waiting = λ i p q. waiting i (omega arith) q;
    held = λ j i e. ground (arith, held j i, waiting i);
    unique = λ a b i p q. ground (arith, unique a b i, held a i, held b i);
    covered = λ i p q. elim (ℕ_discrete i tail) [
      | yes here ↦ inr (k, ground arith)
      | no other ↦ Taken-keep pc _ refl refl (λ j c. ground arith) (covered i (omega arith) q)
    ];
    dated = dated;
    distinct = distinct;
    once = once;
    unborn = unborn;
    kept = kept;
    discarded = discarded;
    absent = absent;
  }

  -- The thief stores itself in the task.
  pub Slots-mark :
      (k i : ℕ)
      → pc k ≡ won i
      → Slots tail bound (update thief i (worker k)) f (update pc k (marked i)) spawned runs dropped
  Slots-mark k h here = record {
    waiting = λ i p q. ground (arith, waiting i p q, held k h);
    held = λ j i e. ground (arith, held j i, held k h, unique j k h);
    unique = λ a b i p q. ground (arith, unique a b i);
    covered = λ i p q. elim (ℕ_discrete i h) [
      | yes here ↦ inr (k, ground arith)
      | no other ↦ Taken-keep pc _ (ground arith) refl (λ j c. ground arith) (covered i p q)
    ];
    dated = dated;
    distinct = distinct;
    once = once;
    unborn = unborn;
    kept = kept;
    discarded = discarded;
    absent = absent;
  }

  -- The thief starts the task.
  pub Slots-start :
      (k i : ℕ)
      → pc k ≡ marked i
      → (runs (f i) ≡ 0)
        × Slots tail bound thief f (update pc k (running i)) spawned (bump runs (f i)) dropped
  Slots-start k h here = (
    ground (arith, held k h),
    record {
      waiting = λ i p q. ground (arith, waiting i p q, held k h, distinct i h);
      held = λ j i e. ground (arith, held j i, held k h, unique j k h, distinct i h);
      unique = λ a b i p q. ground (arith, unique a b i);
      covered = λ i p q. elim (ℕ_discrete i h) [
        | yes same ↦ inr (k, ground arith)
        | no other ↦
            Taken-keep pc _ refl (ground (arith, distinct i h, held k h)) (λ j c. ground arith)
              (covered i p q)
      ];
      dated = dated;
      distinct = distinct;
      once = λ n. ground (arith, once n, held k h);
      unborn = λ n p. ground (arith, unborn n p, dated h, held k h);
      kept = λ n p. elim (ℕ_discrete (f h) n) [
        | yes same ↦ inl (ground (arith, held k h))
        | no other ↦ elim (kept n p) [
          | inl ran ↦ inl (ground arith)
          | inr (inl (i, q, at)) ↦ inr (inl (i, q, at))
          | inr (inr gone) ↦ inr (inr gone)
        ]
      ];
      discarded = λ n p. ground (arith, discarded n p, absent n h p, held k h);
      absent = absent;
    },
  )

  -- The thief is done.
  pub Slots-finish :
      (k i : ℕ) (r : StealResult)
      → pc k ≡ running i
      → Slots tail bound (update thief i completed) f (update pc k (rest r)) spawned runs dropped
  Slots-finish k h r here = record {
    waiting = λ i p q. ground (arith, waiting i p q, held k h);
    held = λ j i e. ground (arith, held j i, held k h, unique j k h);
    unique = λ a b i p q. ground (arith, unique a b i);
    covered = λ i p q. elim (ℕ_discrete i h) [
      | yes same ↦ inl (ground arith, ground (arith, held k h))
      | no other ↦ Taken-keep pc _ (ground arith) refl (λ j c. ground arith) (covered i p q)
    ];
    dated = dated;
    distinct = distinct;
    once = once;
    unborn = unborn;
    kept = kept;
    discarded = discarded;
    absent = absent;
  }
