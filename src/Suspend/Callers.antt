-- ===== src/Suspend/Callers.antt =====
-- The steps of a caller keep the invariant.
use lace.Prelude.{
  ℕ, zero, suc, ◌+◌, ◌-◌, ◌<◌, ◌≡◌, ◌≢◌, refl, sym, Bool, true, false, arith, total-change,
  le-total, if_both, update, ◌==◌, if◌then◌else◌, Bool-cases, inl, inr,
}
use lace.Suspend.{
  AwakenCount, intermediate, users, leaving, Caller, out, resuming, resuming_from, posting, active,
  suspending, suspending_from, gathering, setting, stopping, clearing, closing, Suspension,
  move_caller, caller_at, read_to_resume, read_to_suspend, holds,
}
use lace.Suspend.Invariant.{
  runs, uses, in_charge, rejoiners, runners, all_users, Stands, Settled, Inv,
}

Stands-out :
    (p : Caller) (n sem back run : ℕ) (must : Bool)
    → in_charge p ≡ false
    → Stands p n sem back run must
Stands-out p n sem back run must e = ground arith

holds_lem : (luck : Bool) (c : AwakenCount) (k : ℕ) → holds luck c k ≡ true → c ≡ users k
holds_lem luck c k e = ground arith

module _ {n m : ℕ} {s : Suspension} (inv : Inv n m s) (j : ℕ) (here : j < m) where
  users_change :
      (p : Caller)
      → all_users (update s.caller j p) m + uses (s.caller j) ≡ all_users s.caller m + uses p
  users_change p = ground (
    arith,
    total-change (λ i. uses (s.caller i)) (λ i. uses (update s.caller j p i)) m j here
        (λ i ne. ground arith),
  )

  -- Nobody is in charge while the count is a number.
  nobody : (k i : ℕ) → s.awaken_count ≡ users k → i < m → in_charge (s.caller i) ≡ false
  nobody k i e q = ground (arith, inv.charged i q)

  by_place :
      (p : Caller) (i sem back run : ℕ) (must : Bool)
      → Stands p n sem back run must
      → (i ≢ j → Stands (s.caller i) n sem back run must)
      → Stands (update s.caller j p i) n sem back run must
  by_place p i sem back run must mine other =
      if_both (λ c. Stands c n sem back run must) (j == i) (λ _. mine)
        (λ no. other (λ e. ground (arith, sym e)))

  -- Nobody else is in charge beside caller `j`.
  others : (i : ℕ) → i < m → i ≢ j → in_charge (s.caller j) ≡ true → in_charge (s.caller i) ≡ false
  others i q ne e = elim (Bool-cases (in_charge (s.caller i))) [
    | inl f ↦ absurd (ne (inv.one i j q here f e))
    | inr f ↦ f
  ]

  -- A step that counts nobody in or out.
  calm-Inv :
      (p : Caller)
      → uses p ≡ uses (s.caller j)
      → in_charge p ≡ false
      → in_charge (s.caller j) ≡ false
      → Inv n m (move_caller j p s)
  unfolding move_caller
  calm-Inv p same calm before = record {
    counted = inv.counted;
    leavers = inv.leavers;
    one = λ a b q r e f. inv.one a b q r (ground arith) (ground arith);
    charged = λ i q e. inv.charged i q (ground arith);
    held = λ e. let (i, q, c) = inv.held e in (i, q, ground arith);
    counts = λ k e. ground (arith, users_change p, inv.counts k e);
    quiet = λ e. ground (arith, users_change p, inv.quiet e);
    settled = inv.settled;
    stands = λ i q. by_place p i _ _ _ _ (Stands-out p n _ _ _ _ calm) (λ _. inv.stands i q);
  }

  -- A user is counted in or out, while others stay.
  count-Inv :
      (p : Caller) (k k' : ℕ)
      → s.awaken_count ≡ users (suc k)
      → k' + uses (s.caller j) ≡ suc k + uses p
      → 0 < k'
      → in_charge p ≡ false
      → in_charge (s.caller j) ≡ false
      → Inv n m (move_caller j p (record s { awaken_count = users k' }))
  unfolding move_caller
  count-Inv p k k' at balance pos calm before = record {
    counted = inv.counted;
    leavers = inv.leavers;
    one = λ a b q r e f. inv.one a b q r (ground arith) (ground arith);
    charged = λ i q e. ground (arith, inv.charged i q);
    held = λ e. ground arith;
    counts = λ c e. ground (arith, users_change p, inv.counts (suc k) at);
    quiet = λ e. ground arith;
    settled = λ c e. ground (arith, inv.settled (suc k) at);
    stands = λ i q. by_place p i _ _ _ _ (Stands-out p n _ _ _ _ calm) (λ _. inv.stands i q);
  }

  -- The caller takes charge: it is the only user, or there is none.
  charge-Inv :
      (p : Caller) (k : ℕ)
      → s.awaken_count ≡ users k
      → k ≡ uses (s.caller j)
      → uses p ≡ 0
      → in_charge p ≡ true
      → Stands p n s.semaphore (rejoiners s.worker n) (runners s.worker n) s.must_suspend
      → Inv n m (move_caller j p (record s { awaken_count = intermediate }))
  unfolding move_caller
  charge-Inv p k at only none_in charge stand = record {
    counted = inv.counted;
    leavers = inv.leavers;
    one = λ a b q r e f. ground (arith, nobody k a at q, nobody k b at r);
    charged = λ i q e. refl;
    held = λ e. (j, here, ground arith);
    counts = λ c e. ground arith;
    quiet = λ e. ground (arith, users_change p, inv.counts k at);
    settled = λ c e. ground arith;
    stands = λ i q. by_place p i _ _ _ _ stand (λ _. inv.stands i q);
  }

  -- The caller in charge goes on.
  phase-Inv :
      (p : Caller) (sem : ℕ) (must : Bool)
      → in_charge (s.caller j) ≡ true
      → uses (s.caller j) ≡ uses p
      → in_charge p ≡ true
      → Stands p n sem (rejoiners s.worker n) (runners s.worker n) must
      → ((i : ℕ) → i < n → s.worker i ≡ leaving → must ≡ true)
      → Inv n m (move_caller j p (record s { semaphore = sem; must_suspend = must }))
  unfolding move_caller
  phase-Inv p sem must before same charge stand leave = record {
    counted = inv.counted;
    leavers = leave;
    one = λ a b q r e f. ground (arith, inv.one a j q here, inv.one b j r here);
    charged = λ i q e. inv.charged j here before;
    held = λ e. (j, here, ground arith);
    counts = λ c e. ground (arith, inv.charged j here before);
    quiet = λ e. ground (arith, users_change p, inv.quiet e);
    settled = λ c e. ground (arith, inv.charged j here before);
    stands = λ i q.
        by_place p i _ _ _ _ stand (λ ne. Stands-out (s.caller i) n _ _ _ _ (others i q ne before));
  }

  -- The caller in charge lets go.
  let_go-Inv :
      (p : Caller)
      → in_charge (s.caller j) ≡ true
      → uses (s.caller j) ≡ 0
      → in_charge p ≡ false
      → Settled (uses p) n s.semaphore (rejoiners s.worker n) (runners s.worker n) s.must_suspend
      → Inv n m (move_caller j p (record s { awaken_count = users (uses p) }))
  unfolding move_caller
  let_go-Inv p before zero_in calm settle = record {
    counted = inv.counted;
    leavers = inv.leavers;
    one = λ a b q r e f. ground (arith, inv.one a j q here, inv.one b j r here);
    charged = λ i q e. ground (arith, inv.one i j q here);
    held = λ e. ground arith;
    counts = λ c e. ground (arith, users_change p, inv.quiet (inv.charged j here before));
    quiet = λ e. ground arith;
    settled = λ c e. ground arith;
    stands = λ i q. by_place p i _ _ _ _ (Stands-out p n _ _ _ _ calm) (λ _. inv.stands i q);
  }

  -- A worker that is about to stop is counted as running.
  no_leaver : (i : ℕ) → i < n → s.caller j ≡ clearing → s.worker i ≡ leaving → false ≡ true
  no_leaver i p at e = ground (arith, inv.stands j here, le-total (λ i. runs (s.worker i)) n i p)

  count_out :
      (k : ℕ)
      → s.caller j ≡ suspending_from k
      → s.awaken_count ≡ users k
      → Inv n m (
          if k == 1
          then move_caller j gathering (record s { awaken_count = intermediate })
          else move_caller j out (record s { awaken_count = users (k - 1) }))
  count_out zero at count =
      absurd (ground (arith, inv.counts 0 count, le-total (λ i. uses (s.caller i)) m j here))
  count_out (suc k) at count =
      if_both (Inv n m) (suc k == 1)
        (λ e.
          charge-Inv gathering (suc k) count (ground arith) refl refl
            (ground (arith, inv.settled (suc k) count)))
        (λ e. count-Inv out k (suc k - 1) count (ground arith) (ground arith) refl (ground arith))

  pub caller_at-Inv : (luck : Bool) (c : Caller) → s.caller j ≡ c → Inv n m (caller_at luck n j c s)
  unfolding caller_at
  caller_at-Inv luck out at = calm-Inv resuming (ground arith) refl (ground arith)
  caller_at-Inv luck resuming at = by_count s.awaken_count
    where
      by_count : (a : AwakenCount) → Inv n m (read_to_resume j a s)
      by_count intermediate = unfold read_to_resume in inv
      by_count (users k) =
          unfold read_to_resume in calm-Inv (resuming_from k) (ground arith) refl (ground arith)
  caller_at-Inv luck (resuming_from zero) at =
      if_both (Inv n m) (holds luck s.awaken_count 0)
        (λ e.
          let count = holds_lem luck s.awaken_count 0 e in
          charge-Inv (posting n) 0 count (ground arith) refl refl
            (ground (arith, inv.settled 0 count)))
        (λ _. calm-Inv resuming (ground arith) refl (ground arith))
  caller_at-Inv luck (resuming_from (suc k)) at =
      if_both (Inv n m) (holds luck s.awaken_count (suc k))
        (λ e.
          count-Inv active k (suc k + 1) (holds_lem luck s.awaken_count (suc k) e) (ground arith)
            (omega arith) refl (ground arith))
        (λ _. calm-Inv resuming (ground arith) refl (ground arith))
  caller_at-Inv luck (posting (suc k)) at =
      phase-Inv (posting k) (s.semaphore + 1) s.must_suspend (ground arith) (ground arith) refl
        (ground (arith, inv.stands j here)) inv.leavers
  caller_at-Inv luck (posting zero) at =
      let_go-Inv active (ground arith) (ground arith) refl (ground (arith, inv.stands j here))
  caller_at-Inv luck active at = calm-Inv suspending (ground arith) refl (ground arith)
  caller_at-Inv luck suspending at = by_count s.awaken_count
    where
      by_count : (a : AwakenCount) → Inv n m (read_to_suspend j a s)
      by_count intermediate = unfold read_to_suspend in inv
      by_count (users zero) = unfold read_to_suspend in inv
      by_count (users (suc k)) =
          unfold read_to_suspend in
          calm-Inv (suspending_from (suc k)) (ground arith) refl (ground arith)
  caller_at-Inv luck (suspending_from k) at =
      if_both (Inv n m) (holds luck s.awaken_count k)
        (λ e. count_out k at (holds_lem luck s.awaken_count k e))
        (λ _. calm-Inv suspending (ground arith) refl (ground arith))
  caller_at-Inv luck gathering at =
      if_both (Inv n m) (s.workers_running == n)
        (λ e.
          phase-Inv setting s.semaphore s.must_suspend (ground arith) (ground arith) refl
            (ground (arith, inv.stands j here, inv.counted)) inv.leavers)
        (λ _. inv)
  caller_at-Inv luck setting at =
      phase-Inv stopping s.semaphore true (ground arith) (ground arith) refl
        (ground (arith, inv.stands j here)) (λ i p e. refl)
  caller_at-Inv luck stopping at =
      if_both (Inv n m) (s.workers_running == 0)
        (λ e.
          phase-Inv clearing s.semaphore s.must_suspend (ground arith) (ground arith) refl
            (ground (arith, inv.stands j here, inv.counted)) inv.leavers)
        (λ _. inv)
  caller_at-Inv luck clearing at =
      phase-Inv closing s.semaphore false (ground arith) (ground arith) refl
        (ground (arith, inv.stands j here)) (λ i p e. no_leaver i p at e)
  caller_at-Inv luck closing at =
      let_go-Inv out (ground arith) (ground arith) refl (ground (arith, inv.stands j here))
