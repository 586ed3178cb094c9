-- ===== src/Deque/Slots/Owned.antt =====
-- The owner's changes to the slots: a task is added at the end, taken back, dropped, or given up
-- after its thief is done.
use lace.Prelude.{ℕ, suc, ◌+◌, ◌≤◌, ◌<◌, ◌≡◌, ◌≢◌, inl, inr, Bool, true, some, arith, update, bump}
use native.Mathlib.Decide.{dec_lt, ℕ_discrete}
use lace.Deque.State.{Thief, empty, task, completed, ThiefPc, won, marked, running}
use lace.Deque.Slots.Defs.{claim, Agree, Slots}

-- A slot that a thief holds is not done.
pub Agree-completed : (p : ThiefPc) (j n : ℕ) {i : ℕ} → claim p ≡ some i → Agree p j completed n → ⊥
Agree-completed (won _) j n c a = ground arith
Agree-completed (marked _) j n c a = ground arith
Agree-completed (running _) j n c a = ground arith
Agree-completed _ j n c a = ground arith

module _ {tail bound : ℕ} {thief : ℕ → Thief} {f : ℕ → ℕ} {pc : ℕ → ThiefPc} {spawned : ℕ}
    {runs : ℕ → ℕ} {dropped : ℕ → Bool}
    (sl : Slots tail bound thief f pc spawned runs dropped) where
  open sl use {
    waiting, held, unique, covered, dated, distinct, once, unborn, kept, discarded, absent,
  }

  -- The task at the end is executed by the owner; the tail is not beyond it.
  pub Slots-take :
      {last : ℕ}
      → bound ≡ suc last
      → tail ≤ last
      → (runs (f last) ≡ 0)
        × Slots tail last (update thief last empty) f pc spawned (bump runs (f last)) dropped
  Slots-take {last} e low = (
    (waiting last low (omega arith)).1,
    record {
      waiting = λ i p q. ground (arith, waiting i p, waiting last low, distinct i last);
      held = λ j i c. ground (arith, held j i c, distinct i last);
      unique = unique;
      covered = λ i p q. ground (arith, covered i p, distinct i last);
      dated = λ i p. dated i (omega arith);
      distinct = λ i j p q. distinct i j (omega arith) (omega arith);
      once = λ n. ground (arith, once n, waiting last low);
      unborn = λ n p. ground (arith, unborn n p, dated last);
      kept = λ n p. elim (ℕ_discrete (f last) n) [
        | yes here ↦ inl (ground (arith, waiting last low))
        | no other ↦ elim (kept n p) [
          | inl ran ↦ inl (ground arith)
          | inr (inl (i, q, at)) ↦ inr (inl (i, ground arith, at))
          | inr (inr gone) ↦ inr (inr gone)
        ]
      ];
      discarded = λ n p. ground (arith, discarded n p, absent n last p);
      absent = λ n i p q. absent n i p (omega arith);
    },
  )

  -- The task at the end is dropped.
  pub Slots-drop :
      {last : ℕ}
      → bound ≡ suc last
      → tail ≤ last
      → Slots tail last thief f pc spawned runs (update dropped (f last) true)
  Slots-drop {last} e low = record {
    waiting = λ i p q. waiting i p (omega arith);
    held = λ j i c. ground (arith, held j i c);
    unique = unique;
    covered = λ i p q. covered i p (omega arith);
    dated = λ i p. dated i (omega arith);
    distinct = λ i j p q. distinct i j (omega arith) (omega arith);
    once = once;
    unborn = unborn;
    kept = λ n p. elim (kept n p) [
      | inl ran ↦ inl ran
      | inr (inl (i, q, at)) ↦ elim (ℕ_discrete i last) [
        | yes here ↦ inr (inr (ground arith))
        | no other ↦ inr (inl (i, omega arith, at))
      ]
      | inr (inr gone) ↦ inr (inr (ground arith))
    ];
    discarded = λ n p. ground (arith, discarded n, dated last, waiting last low);
    absent = λ n i p q. ground (arith, absent n i, distinct i last);
  }

  -- No thief holds a slot whose task is done.
  pub Slots-done : {i : ℕ} → thief i ≡ completed → (k : ℕ) → claim (pc k) ≢ some i
  Slots-done {i} done k c = Agree-completed (pc k) k _ c (rw done at (held k i c).2)

  -- The task at the end was stolen and is done.
  pub Slots-clear :
      {last : ℕ}
      → bound ≡ suc last
      → last < tail
      → thief last ≡ completed
      → (runs (f last) ≡ 1) × Slots tail last (update thief last empty) f pc spawned runs dropped
  Slots-clear {last} e low done = (
    ran_once,
    record {
      waiting = λ i p q. absurd (omega arith);
      held = λ j i c. ground (arith, held j i c, not_held j);
      unique = unique;
      covered = λ i p q. ground (arith, covered i p);
      dated = λ i p. dated i (omega arith);
      distinct = λ i j p q. distinct i j (omega arith) (omega arith);
      once = once;
      unborn = unborn;
      kept = λ n p. elim (kept n p) [
        | inl ran ↦ inl ran
        | inr (inl (i, q, at)) ↦ elim (ℕ_discrete i last) [
          | yes here ↦ inl (rw (← at) (rw here ran_once))
          | no other ↦ inr (inl (i, omega arith, at))
        ]
        | inr (inr gone) ↦ inr (inr gone)
      ];
      discarded = discarded;
      absent = λ n i p q. absent n i p (omega arith);
    },
  )
    where
      not_held : (j : ℕ) → claim (pc j) ≢ some last
      not_held j c = Slots-done done j c

      ran_once : runs (f last) ≡ 1
      ran_once = elim (covered last low (omega arith)) [
        | inl fact ↦ fact.1
        | inr (j, c) ↦ absurd (not_held j c)
      ]

  -- `NAME_SPAWN` writes beyond the end.
  pub Slots-write :
      (h : ℕ) (t : Thief) (v : ℕ)
      → bound ≤ h
      → Slots tail bound (update thief h t) (update f h v) pc spawned runs dropped
  Slots-write h t v out = record {
    waiting = λ i p q. ground (arith, waiting i p q);
    held = λ j i c. ground (arith, held j i c);
    unique = unique;
    covered = λ i p q. ground (arith, covered i p q);
    dated = λ i p. ground (arith, dated i p);
    distinct = λ i j p q. ground (arith, distinct i j p q);
    once = once;
    unborn = unborn;
    kept = λ n p. ground (arith, kept n p);
    discarded = discarded;
    absent = λ n i p q. ground (arith, absent n i p q);
  }

  -- The slot at the end becomes part of the deque; the tail may fall to it.
  pub Slots-publish :
      (tail' : ℕ)
      → thief bound ≡ task
      → f bound ≡ spawned
      → tail' ≤ bound
      → ((i : ℕ) → i < bound → (i < tail → i < tail') × (i < tail' → i < tail))
      → Slots tail' (bound + 1) thief f pc (spawned + 1) runs dropped
  Slots-publish tail' ht hf low same = record {
    waiting = λ i p q. ground (arith, waiting i, same i, unborn spawned);
    held = λ j i c. ground (arith, held j i c, same i);
    unique = unique;
    covered = λ i p q. ground (arith, covered i, same i);
    dated = λ i p. ground (arith, dated i);
    distinct = λ i j p q e. ground (arith, distinct i j, dated i, dated j);
    once = once;
    unborn = λ n p. unborn n (omega arith);
    kept = λ n p. elim (dec_lt n spawned) [
      | yes old ↦ elim (kept n old) [
        | inl ran ↦ inl ran
        | inr (inl (i, q, at)) ↦ inr (inl (i, omega arith, at))
        | inr (inr gone) ↦ inr (inr gone)
      ]
      | no new ↦ inr (inl (bound, omega arith, omega arith))
    ];
    discarded = λ n p. ground (arith, discarded n p);
    absent = λ n i p q. ground (arith, absent n i p, discarded n p);
  }
