-- ===== src/External/Value/Right.antt =====
-- `RUN` returns the value of the task's function.
use lace.Prelude.{
  true, map, ℕ, Bool, ◌≡◌, refl, sym, ap, ◌∙◌, subst, some, none, Option, List, [], ◌∷◌, arith,
}
use native.Mathlib.Decide.{ℕ_discrete}
use lace.Deque.Value.{Union, args, res, wrap, result}
use lace.External.{
  steal_external, Kind, Pc, idle, taken, finished, start, goto, finish, thread_at, step,
}
use lace.External.Value.{
  move_of, took, Callers, no_callers, RunMove, run, runs_on, takes, finishes, name_run,
  name_returns, called_f, run_writes, run_act, run_all,
}
use lace.External.Invariant.{is_queued, Inv as ExternalInv}
use lace.External.Run.{AllInRange, step-Inv, no_tasks-Inv}
use lace.External.Value.Stages.{
  stage-took, Stage, at_rest, in_call, on_worker, served, stage, stage-thread,
}

waiting_stage : (p : Pc) → is_queued p ≡ true → stage p ≡ in_call
waiting_stage p e = ground arith

module _ {A R : Type 0} (work : A → R) where
  -- What the thread's stage says of its task.
  abbrev pub Serves : Stage → Union A R → Option A → Option R → ℕ → Type 0
  Serves at_rest d g r n = (a : A) → g ≡ some a → (n ≡ 1) × (r ≡ some (work a))
  Serves in_call d g r n = (n ≡ 0) × (r ≡ none) × ((a : A) × (d ≡ args a) × (g ≡ some a))
  Serves on_worker d g r n = (n ≡ 1) × (r ≡ none) × ((a : A) × (d ≡ args a) × (g ≡ some a))
  Serves served d g r n = (n ≡ 1) × (r ≡ none) × ((a : A) × (d ≡ res (work a)) × (g ≡ some a))

  abbrev pub AllServed : Callers A R → Type 0
  AllServed m = (i : ℕ) → Serves (stage (m.ext.pc i)) (m.d i) (m.given i) (m.returned i) (m.runs i)

  -- The same stage and the same fields.
  alike :
      {s t : Stage} {d e : Union A R} {g h : Option A} {r q : Option R} {n m : ℕ}
      → s ≡ t
      → d ≡ e
      → g ≡ h
      → r ≡ q
      → n ≡ m
      → Serves s d g r n
      → Serves t e h q m
  alike {s = s} {t = t} {d = d} {e = e} {g = g} {h = h} {r = r} {q = q} {n = n} {m = m} st de gh rq
        nm x =
      subst (λ k. Serves t e h q k) nm
        (subst (λ k. Serves t e h k n) rq
          (subst (λ k. Serves t e k r n) gh
            (subst (λ k. Serves t k g r n) de (subst (λ k. Serves k d g r n) st x))))

  now :
      (m : Callers A R) (i : ℕ) (p : Pc)
      → m.ext.pc i ≡ p
      → AllServed m
      → Serves (stage p) (m.d i) (m.given i) (m.returned i) (m.runs i)
  now m i p at ok =
      subst (λ q. Serves (stage q) (m.d i) (m.given i) (m.returned i) (m.runs i)) at (ok i)

  run-Served :
      (m : Callers A R) (k : Kind) (a : A) (i : ℕ) (p : Pc)
      → m.ext.pc i ≡ p
      → AllServed m
      → AllServed (record (name_run a i p m) { ext = start k i p m.ext })
  unfolding name_run start goto
  run-Served m k a i idle at ok j = elim (ℕ_discrete i j) [
    | yes here ↦
        alike {s = in_call} (ground arith) (ground arith) (ground arith) (ground arith)
          (ground arith) (refl, refl, (a, refl, refl))
    | no other ↦
        alike (ground arith) (ground arith) (ground arith) (ground arith) (ground arith) (ok j)
  ]
  run-Served m k a i _ at ok j = ok j

  thread-Served :
      (m : Callers A R) (luck : Bool) (i : ℕ) (p : Pc)
      → m.ext.pc i ≡ p
      → AllServed m
      → AllServed (record (name_returns i p m) { ext = thread_at luck i p m.ext })
  unfolding name_returns result
  thread-Served m luck i (finished k) at ok j =
      let next = stage-thread m.ext i j luck (finished k) at in
      elim (ℕ_discrete i j) [
        | yes here ↦
            let (ran, _, (a, d, g)) = now m i (finished k) at ok in
            alike {s = at_rest} {r = result (m.d i)} (ground (arith, next)) refl refl (ground arith)
              refl
              (λ b e.
                let same = sym (ap m.given (sym here) ∙ g) ∙ e in
                (ground (arith, ap m.runs here), ground (arith, d, same)))
        | no other ↦ alike (ground (arith, next)) refl refl (ground arith) refl (ok j)
      ]
  thread-Served m luck i p at ok j =
      alike (ground (arith, stage-thread m.ext i j luck p at)) refl refl refl refl (ok j)

  finish-Served :
      (m : Callers A R) (i : ℕ) (p : Pc)
      → m.ext.pc i ≡ p
      → AllServed m
      → AllServed (record (called_f work i p m) { ext = finish i p m.ext })
  unfolding called_f wrap finish goto
  finish-Served m i (taken k) at ok j = elim (ℕ_discrete i j) [
    | yes here ↦
        let (fresh, none_yet, (a, d, g)) = now m i (taken k) at ok in
        alike {s = served} (ground arith) refl refl refl refl (
          ground (arith, fresh, ap m.runs here),
          ap m.returned (sym here) ∙ none_yet,
          (a, ground (arith, d), ap m.given (sym here) ∙ g),
        )
    | no other ↦ alike (ground arith) (ground arith) refl refl (ground arith) (ok j)
  ]
  finish-Served m i p at ok j = ok j

  take-Served :
      (m : Callers A R) (t : Option ℕ)
      → m.ext.external_task ≡ t
      → ((i : ℕ) → t ≡ some i → is_queued (m.ext.pc i) ≡ true)
      → AllServed m
      → AllServed (record (took t m) { ext = steal_external m.ext })
  unfolding took
  take-Served m none at offered ok j =
      alike (sym (stage-took m.ext none at offered j)) refl refl refl refl (ok j)
  take-Served m (some i) at offered ok j =
      let next = stage-took m.ext (some i) at offered j in
      elim (ℕ_discrete i j) [
        | yes here ↦
            let (fresh, not_yet, a) =
              subst (λ st. Serves st (m.d j) (m.given j) (m.returned j) (m.runs j))
                (waiting_stage (m.ext.pc j) (ground (arith, offered i refl, ap m.ext.pc here)))
                (ok j) in
            alike {s = on_worker} (ground (arith, next)) refl refl refl refl
              (ground (arith, fresh), not_yet, a)
        | no other ↦ alike (ground (arith, next)) refl refl refl (ground arith) (ok j)
      ]

  act-Served :
      (n : ℕ) (m : Callers A R) (x : RunMove A)
      → ExternalInv n m.ext
      → AllServed m
      → AllServed (run_act work m x)
  unfolding run_act run_writes step
  act-Served n m (run k a i) inv ok = run-Served m k a i (m.ext.pc i) refl ok
  act-Served n m (runs_on luck i) inv ok = thread-Served m luck i (m.ext.pc i) refl ok
  act-Served n m takes inv ok =
      take-Served m m.ext.external_task refl (λ i e. (inv.core.offered i e).1) ok
  act-Served n m (finishes i) inv ok = finish-Served m i (m.ext.pc i) refl ok

  run_all-Served :
      (n : ℕ) (l : List (RunMove A)) (m : Callers A R)
      → AllInRange n (map move_of l)
      → ExternalInv n m.ext
      → AllServed m
      → AllServed (run_all work l m)
  run_all-Served n [] m range inv ok = ok
  run_all-Served n (x ∷ l) m range inv ok =
      run_all-Served n l (run_act work m x) range.1
        (unfold run_act in step-Inv n m.ext (move_of x) range.0 inv) (act-Served n m x inv ok)

  init-Served : AllServed no_callers
  init-Served i v e = absurd (ground (arith, e))

  -- However `n` threads that are no workers have tasks run, shared and exclusive, and however their
  -- calls interleave with the workers: where a thread's call has ended, `RUN` or `RUNEX` has returned
  -- the value of the task's function at the arguments of this call, and workers have taken the task,
  -- and so called its function, exactly once.
  pub run_value :
      (n : ℕ) (l : List (RunMove A)) (i : ℕ) (a : A)
      → AllInRange n (map move_of l)
      → (run_all work l no_callers).ext.pc i ≡ idle
      → (run_all work l no_callers).given i ≡ some a
      → ((run_all work l no_callers).runs i ≡ 1)
        × ((run_all work l no_callers).returned i ≡ some (work a))
  run_value n l i a range ended =
      now (run_all work l no_callers) i idle ended
        (run_all-Served n l no_callers range (no_tasks-Inv n) init-Served) a
