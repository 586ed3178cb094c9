-- ===== src/External/Lost.antt =====
-- A shared task that another thread's compare-exchange removes from `external_task`.
use lace.Prelude.{
  ℕ, ◌≡◌, ◌≢◌, refl, sym, ap, ◌∙◌, Bool, true, false, Option, none, some, List, [], ◌∷◌, if_both,
  arith, subst, ltb, ◌==◌, ◌&&◌, ◌-◌,
}
use lace.External.{
  Kind, shared, exclusive, Pc, idle, entering, asleep, draining, posting, queued, taken, finished,
  Externals, Move, call, thread, worker_takes, worker_finishes, step, goto, drain, claim, post,
  release, thread_at, start, finish, take, steal_external, same,
}
use lace.External.Run.{run_external}

-- No step of another thread or of a worker reaches a thread whose task stands nowhere.
abbrev pub Lost : ℕ → Externals → Type 0
Lost j s = (s.pc j ≡ queued shared) × (s.external_task ≢ some j)

elsewhere : (i j : ℕ) (s : Externals) (p : Pc) → s.pc i ≡ p → p ≢ queued shared → Lost j s → i ≢ j
elsewhere i j s p at ne lost = λ e. ground (arith, lost.0)

goto-Lost : (i j : ℕ) (p : Pc) (s : Externals) → i ≢ j → Lost j s → Lost j (goto i p s)
unfolding goto
goto-Lost i j p s ne (q, e) = (ground arith, e)

drain-Lost : (i j : ℕ) (s : Externals) → i ≢ j → Lost j s → Lost j (drain i s)
unfolding drain
drain-Lost i j s ne lost =
    if_both (Lost j) (ltb 0 s.counter) (λ _. goto-Lost i j (draining false) s ne lost)
      (λ _. goto-Lost i j (posting exclusive none) s ne lost)

claim-Lost : (k : Kind) (i j : ℕ) (s : Externals) → i ≢ j → Lost j s → Lost j (claim k i s)
unfolding claim
claim-Lost shared i j s ne lost =
    if_both (Lost j) s.is_exclusive (λ _. goto-Lost i j (asleep shared false) s ne lost)
      (λ _. (ground (arith, lost.0), lost.1))
claim-Lost exclusive i j s ne lost =
    if_both (Lost j) s.is_exclusive (λ _. goto-Lost i j (asleep exclusive false) s ne lost)
      (λ _. drain-Lost i j (record s { is_exclusive = true }) ne lost)

thread_at-Lost :
    (luck : Bool) (i j : ℕ) (p : Pc) (s : Externals)
    → s.pc i ≡ p
    → Lost j s
    → Lost j (thread_at luck i p s)
unfolding thread_at claim post release drain goto
thread_at-Lost luck i j idle s at lost = lost
thread_at-Lost luck i j (entering k) s at lost = claim-Lost k i j s (ground arith) lost
thread_at-Lost luck i j (asleep k true) s at lost = claim-Lost k i j s (ground arith) lost
thread_at-Lost luck i j (asleep k false) s at lost =
    if_both (Lost j) luck (λ _. claim-Lost k i j s (ground arith) lost) (λ _. lost)
thread_at-Lost luck i j (draining true) s at lost = drain-Lost i j s (ground arith) lost
thread_at-Lost luck i j (draining false) s at lost =
    if_both (Lost j) luck (λ _. drain-Lost i j s (ground arith) lost) (λ _. lost)
thread_at-Lost luck i j (posting k exp) s at lost =
    if_both (Lost j) (same s.external_task exp && luck)
      (λ _. (ground (arith, lost.0), ground arith)) (λ _. (ground (arith, lost.0), lost.1))
thread_at-Lost luck i j (queued k) s at lost = lost
thread_at-Lost luck i j (taken k) s at lost = lost
thread_at-Lost luck i j (finished shared) s at lost =
    if_both (λ (pc : ℕ → Pc). (pc j ≡ queued shared) × (s.external_task ≢ some j))
      (s.is_exclusive && (s.counter - 1 == 0)) (λ _. (ground (arith, lost.0), lost.1))
      (λ _. (ground (arith, lost.0), lost.1))
thread_at-Lost luck i j (finished exclusive) s at lost = (ground (arith, lost.0), lost.1)

start-Lost :
    (k : Kind) (i j : ℕ) (p : Pc) (s : Externals) → s.pc i ≡ p → Lost j s → Lost j (start k i p s)
unfolding start goto
start-Lost k i j idle s at (q, e) = (ground arith, e)
start-Lost k i j _ s at lost = lost

finish-Lost : (i j : ℕ) (p : Pc) (s : Externals) → s.pc i ≡ p → Lost j s → Lost j (finish i p s)
unfolding finish goto
finish-Lost i j (taken k) s at (q, e) = (ground arith, e)
finish-Lost i j _ s at lost = lost

take-Lost : (i j : ℕ) (p : Pc) (s : Externals) → i ≢ j → Lost j s → Lost j (take i p s)
unfolding take
take-Lost i j (queued k) s ne (q, e) = (ground arith, λ l. ground arith)
take-Lost i j _ s ne lost = (lost.0, λ e. ground (arith, e))

step-Lost : (j : ℕ) (m : Move) (s : Externals) → Lost j s → Lost j (step s m)
unfolding step start steal_external take finish goto
step-Lost j (call k i) s lost = start-Lost k i j (s.pc i) s refl lost
step-Lost j (thread luck i) s lost = thread_at-Lost luck i j (s.pc i) s refl lost
step-Lost j worker_takes s lost = by_task s.external_task refl
  where
    by_task :
        (t : Option ℕ)
        → s.external_task ≡ t
        → Lost j (elim t [ none ↦ s | some i ↦ take i (s.pc i) s ])
    by_task none e = lost
    by_task (some i) e = take-Lost i j (s.pc i) s (λ same. lost.1 (e ∙ ap some same)) lost
step-Lost j (worker_finishes i) s lost = finish-Lost i j (s.pc i) s refl lost

run-Lost : (j : ℕ) (l : List Move) (s : Externals) → Lost j s → Lost j (run_external l s)
unfolding run_external
run-Lost j [] s lost = lost
run-Lost j (m ∷ l) s lost = run-Lost j l (step s m) (step-Lost j m s lost)

same_refl : (j : ℕ) → same (some j) (some j) ≡ true
same_refl j = ground arith

-- A compare-exchange that finds what it expects.
post_found :
    (k : Kind) (i j : ℕ) (s : Externals)
    → i ≢ j
    → s.external_task ≡ some j
    → s.pc j ≡ queued shared
    → Lost j (post true k (some j) i s)
unfolding post
post_found k i j s ne e q =
    if_both (Lost j) (same s.external_task (some j) && true) (λ _. (ground arith, ground arith))
      (λ no. absurd (ground (arith, same_refl j)))

posts :
    (k : Kind) (exp : Option ℕ) (i : ℕ) (s : Externals)
    → s.pc i ≡ posting k exp
    → step s (thread true i) ≡ post true k exp i s
unfolding step thread_at
posts k exp i s at = ap (λ p. thread_at true i p s) at

post-Lost :
    (k : Kind) (exp : Option ℕ) (i j : ℕ) (s : Externals)
    → i ≢ j
    → s.pc i ≡ posting k exp
    → s.external_task ≡ some j
    → s.pc j ≡ queued shared
    → Lost j (step (step s (thread true i)) (thread true i))
unfolding post
post-Lost k exp i j s ne at e q =
    subst (λ t. Lost j (step t (thread true i))) (sym (posts k exp i s at)) second
  where
    second : Lost j (step (post true k exp i s) (thread true i))
    second =
        if_both (λ t. Lost j (step t (thread true i))) (same s.external_task exp && true)
          (λ _. step-Lost j (thread true i) _ (ground arith, ground arith))
          (λ _.
            subst (Lost j)
              (sym (
                posts k s.external_task i (goto i (posting k s.external_task) s)
                  (unfold goto in ground arith)))
              (subst (λ x. Lost j (post true k x i (goto i (posting k s.external_task) s))) (sym e)
                (post_found k i j (goto i (posting k s.external_task) s) ne (unfold goto in e)
                  (unfold goto in ground arith))))

-- A task that stands in `external_task` while another thread runs its loop of compare-exchanges is
-- lost when that thread makes its next two attempts before a worker takes the task, as the first
-- one stores the task in `exp` and the second one replaces it: its caller waits for the semaphore
-- for ever, whatever the threads and the workers do.
pub replaced_task_waits_forever :
    (k : Kind) (exp : Option ℕ) (i j : ℕ) (s : Externals) (l : List Move)
    → i ≢ j
    → s.pc i ≡ posting k exp
    → s.external_task ≡ some j
    → s.pc j ≡ queued shared
    → (run_external (thread true i ∷ thread true i ∷ l) s).pc j ≡ queued shared
unfolding run_external
replaced_task_waits_forever k exp i j s l ne at e q =
    (run-Lost j l _ (post-Lost k exp i j s ne at e q)).0
