-- ===== src/NewFrame/Moving.antt =====
-- Every access of a worker keeps the invariant, if no compare-exchange fails without a reason.
use lace.Prelude.{ℕ, ◌<◌, refl, true, Option, none, some, sym, subst}
use lace.NewFrame.{
  Kind, Task, Pc, running, starting, yielding, crashed, copied, copy_waits, claimed, claim_waits,
  resetting, entering, enter_waits, ended, end_waits, Session, Action, start, look, end_root, leave,
  look_at, act, claim, copy, worker_at,
}
use lace.NewFrame.Invariant.{
  Phase, quiet, gather, reset, between, closing, Allowed, pointer, Inv, Sound,
}
use lace.NewFrame.Steps.{
  sound, move-Inv, arrive-Inv, start_when_over, start-Inv, leave-Inv, claim-Inv, reset-Inv,
}
use lace.NewFrame.Ending.{end_root-Inv}

module _ {n : ℕ} {s : Session} {d : ℕ} {f : ℕ → Task} (i : ℕ) (p : i < n) where
  look-Inv :
      (ph : Phase) → Inv n s ph d f → Allowed ph i running → Sound n (look_at i (pointer ph) s)
  unfolding look_at
  look-Inv quiet inv ok = sound inv
  look-Inv (gather t) inv ok = sound (move-Inv inv i (yielding none) ok)
  look-Inv closing inv ok = sound inv
  look-Inv _ inv ok = absurd ok

  act-Inv :
      (ph : Phase) (a : Action) → Inv n s ph d f → Allowed ph i running → Sound n (act n i a s)
  unfolding act
  act-Inv quiet (start k) inv ok = start-Inv quiet i k (s.level i) p inv tt
  act-Inv (gather t) (start k) inv ok = start-Inv (gather t) i k (s.level i) p inv ok
  act-Inv closing (start k) inv ok =
      subst (Sound n) (sym (start_when_over i k (s.level i) p (inv.level i p) inv)) (sound inv)
  act-Inv (reset t) (start k) inv ok = absurd ok
  act-Inv (between t) (start k) inv ok = absurd ok
  act-Inv ph look inv ok =
      subst (λ o. Sound n (look_at i o s)) (sym inv.newframe) (look-Inv ph inv ok)
  act-Inv ph end_root inv ok = end_root-Inv i (s.level i) p (inv.level i p) inv ok
  act-Inv ph leave inv ok = leave-Inv ph i (s.level i) p (inv.level i p) inv ok

  try-Inv :
      (ph : Phase) (k : Kind)
      → Inv n s ph d f
      → Allowed ph i (starting k)
      → Sound n (claim true n i k (pointer ph) s)
  unfolding claim
  try-Inv quiet k inv ok = claim-Inv i k p inv
  try-Inv (gather t) k inv ok = sound (move-Inv inv i (yielding (some k)) ok)
  try-Inv _ k inv ok = absurd ok

  copy-Inv :
      (ph : Phase) (b : Option Kind)
      → Inv n s ph d f
      → Allowed ph i (yielding b)
      → Sound n (copy i b (pointer ph) s)
  unfolding copy
  copy-Inv (gather t) b inv ok = sound (move-Inv inv i (copied t b) (refl, ok))
  copy-Inv _ b inv ok = absurd ok

  pub worker_at-Inv :
      (ph : Phase) (a : Action) (q : Pc)
      → Inv n s ph d f
      → Allowed ph i q
      → Sound n (worker_at true n i a q s)
  unfolding worker_at
  worker_at-Inv ph a running inv ok = act-Inv ph a inv ok
  worker_at-Inv ph a (starting k) inv ok =
      subst (λ o. Sound n (claim true n i k o s)) (sym inv.newframe) (try-Inv ph k inv ok)
  worker_at-Inv ph a (yielding b) inv ok =
      subst (λ o. Sound n (copy i b o s)) (sym inv.newframe) (copy-Inv ph b inv ok)
  worker_at-Inv (gather t) a (copied u b) inv ok = arrive-Inv inv i (copy_waits u b) p ok
  worker_at-Inv (gather t) a (claimed u) inv ok = arrive-Inv inv i (claim_waits u) p ok
  worker_at-Inv (reset t) a (resetting u) inv ok = sound (reset-Inv t i u p inv ok.1 ok.0)
  worker_at-Inv (reset t) a (entering u b) inv ok = arrive-Inv inv i (enter_waits u b) p ok
  worker_at-Inv (between t) a (entering u b) inv ok = arrive-Inv inv i (enter_waits u b) p ok
  worker_at-Inv closing a ended inv ok = arrive-Inv inv i end_waits p tt
  worker_at-Inv _ a crashed inv ok = sound inv
  worker_at-Inv _ a (copy_waits u b) inv ok = sound inv
  worker_at-Inv _ a (claim_waits u) inv ok = sound inv
  worker_at-Inv _ a (enter_waits u b) inv ok = sound inv
  worker_at-Inv _ a end_waits inv ok = sound inv
  worker_at-Inv _ a _ inv ok = absurd ok
