-- ===== src/NewFrame/Steps.antt =====
-- Each step of a worker keeps the invariant.
use lace.Prelude.{
  if_elim, ℕ, zero, suc, ◌<◌, ◌≡◌, ◌≢◌, refl, Bool, true, false, not, ◌&&◌, none, arith,
  if◌then◌else◌, ◌==◌, ap, subst, ◌∙◌, update,
}
use lace.NewFrame.{
  Kind, Task, Pc, running, starting, resetting, entering, enter_waits, ended, Session, is_waiting,
  all, open_barrier, move, arrive, over, start_frame, leave_at, claim,
}
use lace.NewFrame.Invariant.{
  Phase, quiet, gather, reset, between, closing, Allowed, left, live, Inv, Sound, left-is_over,
  left-live,
}
use lace.NewFrame.Opening.{open-Inv}

pub either :
    {n : ℕ} (b : Bool) (x y : Session) → Sound n x → Sound n y → Sound n (if b then x else y)
either true x y p q = p
either false x y p q = q

quiet-gather :
    (t : Task) (j : ℕ) (p : Pc) → Allowed quiet j p → j ≢ t.leader → Allowed (gather t) j p
quiet-gather t j running ok other = other
quiet-gather t j (starting _) ok other = other
quiet-gather t j _ ok other = absurd ok

reset-between :
    (t : Task) (j : ℕ) (p : Pc) → Allowed (reset t) j p → j ≢ t.leader → Allowed (between t) j p
reset-between t j (entering u b) ok other = ok.0
reset-between t j (enter_waits u b) ok other = ok.0
reset-between t j (resetting u) ok other = absurd (other ok.1)
reset-between t j _ ok other = absurd ok

module _ {n : ℕ} {s : Session} {ph : Phase} {d : ℕ} {f : ℕ → Task} (inv : Inv n s ph d f) where
  -- A worker moves to where the phase allows it to be.
  pub move-Inv : (i : ℕ) (p : Pc) → Allowed ph i p → Inv n (move i p s) ph d f
  unfolding move
  move-Inv i p ok = record {
    small = inv.small;
    newframe = inv.newframe;
    ready = inv.ready;
    allowed = λ j q. ground (arith, ok, inv.allowed j q);
    level = inv.level;
    frame = inv.frame;
    lead = inv.lead;
    parts = inv.parts;
    alive = inv.alive;
  }

  pub sound : Sound n s
  sound = record { ph = ph; d = d; f = f; inv = inv }

  -- It is over where nothing is left.
  pub over-frame : (l i : ℕ) → l < d → i < n → left (f l) s.sync ≡ 0 → over (s.frame l i) s ≡ true
  unfolding over
  over-frame l i p q none_left =
      ap (λ t. over t s) (inv.frame l i p q) ∙ left-is_over (f l).kind _ none_left

  pub alive-frame : (l i : ℕ) → l < live ph d → l < d → i < n → over (s.frame l i) s ≡ false
  unfolding over
  alive-frame l i p q r =
      ap (λ t. over t s) (inv.frame l i q r) ∙ left-live (f l).kind _ (inv.alive l p)

  pub arrive-Inv : (i : ℕ) (p : Pc) → i < n → Allowed ph i p → Sound n (arrive n i p s)
  unfolding arrive
  arrive-Inv i p q ok = opens (all is_waiting (move i p s).pc n) refl
    where
      opens :
          (b : Bool)
          → all is_waiting (move i p s).pc n ≡ b
          → Sound n (if b then open_barrier (move i p s) else move i p s)
      opens true e = open-Inv (move i p s) e ph d f i q (move-Inv i p ok)
      opens false e = record { ph = ph; d = d; f = f; inv = move-Inv i p ok }

module _ {n : ℕ} {s : Session} {d : ℕ} {f : ℕ → Task} where
  -- Where the frame is over no other one begins.
  pub start_when_over :
      (i : ℕ) (k : Kind) (l : ℕ) → i < n → l ≡ d → Inv n s closing d f → start_frame i k l s ≡ s
  unfolding start_frame
  start_when_over i k zero p e inv = absurd (ground (arith, e, inv.ready))
  start_when_over i k (suc l) p e inv = ground (
    arith,
    over-frame inv l i (omega arith) p (ap (λ m. left (f m) s.sync) (omega arith) ∙ inv.ready.1),
  )

  pub start-Inv :
      (ph : Phase) (i : ℕ) (k : Kind) (l : ℕ)
      → i < n
      → Inv n s ph d f
      → Allowed ph i (starting k)
      → Sound n (start_frame i k l s)
  unfolding start_frame
  start-Inv ph i k zero p inv ok = sound (move-Inv inv i (starting k) ok)
  start-Inv ph i k (suc l) p inv ok =
      either (over (s.frame l i) s) _ _ (sound inv) (sound (move-Inv inv i (starting k) ok))

  pub leave-Inv :
      (ph : Phase) (i l : ℕ)
      → i < n
      → l ≡ d
      → Inv n s ph d f
      → Allowed ph i running
      → Sound n (leave_at i l s)
  unfolding leave_at
  leave-Inv ph i zero p e inv ok = sound inv
  leave-Inv closing i (suc l) p e inv ok =
      either (not (s.part l i) && over (s.frame l i) s) _ _ (sound (move-Inv inv i ended tt))
        (sound inv)
  leave-Inv quiet i (suc l) p e inv ok =
      subst (Sound n) (ground (arith, alive-frame inv l i (omega arith) (omega arith) p))
        (sound inv)
  leave-Inv (gather t) i (suc l) p e inv ok =
      subst (Sound n) (ground (arith, alive-frame inv l i (omega arith) (omega arith) p))
        (sound inv)
  leave-Inv (reset t) i (suc l) p e inv ok = absurd ok
  leave-Inv (between t) i (suc l) p e inv ok = absurd ok

  pub claim-Inv : (i : ℕ) (k : Kind) → i < n → Inv n s quiet d f → Sound n (claim true n i k none s)
  unfolding claim
  claim-Inv i k p inv = record {
    ph = gather (record { leader = i; level = s.level i; kind = k });
    d = d;
    f = f;
    inv = record {
      small = inv.small;
      newframe = refl;
      ready = (inv.level i p, p, ground arith);
      allowed = λ j q.
          if_elim (Allowed (gather _) j) (i == j) _ _ (λ e. (refl, ground (arith, e)))
            (λ e. quiet-gather _ j (s.pc j) (inv.allowed j q) (λ same. ground (arith, e, same)));
      level = inv.level;
      frame = inv.frame;
      lead = inv.lead;
      parts = λ m q. ground (arith, inv.parts m q, inv.level i p, inv.lead m q);
      alive = λ m q. ground (arith, inv.alive m q, inv.level i p, inv.lead m q);
    };
  }

  pub reset-Inv :
      (t : Task) (i : ℕ) (u : Task)
      → i < n
      → Inv n s (reset t) d f
      → i ≡ t.leader
      → u ≡ t
      → Inv n (record s { newframe = none; pc = update s.pc i (entering u none) }) (between t) d f
  reset-Inv t i u p inv me same = record {
    small = inv.small;
    newframe = refl;
    ready = inv.ready;
    allowed = λ j q.
        if_elim (Allowed (between t) j) (i == j) _ _ (λ e. same)
          (λ e.
            reset-between t j (s.pc j) (inv.allowed j q) (λ leads. ground (arith, e, leads, me)));
    level = inv.level;
    frame = inv.frame;
    lead = inv.lead;
    parts = inv.parts;
    alive = inv.alive;
  }
