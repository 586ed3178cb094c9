-- ===== src/NewFrame/Opening.antt =====
-- The invariant where a barrier opens.
use lace.Prelude.{
  ℕ, suc, ◌-◌, ◌<◌, ◌≡◌, refl, Bool, true, false, Option, none, some, arith, total, total-ext,
  if◌then◌else◌, ◌==◌, sym, ap, subst, ◌∙◌,
}
use lace.NewFrame.{
  Kind, Task, Pc, running, starting, entering, resetting, copy_waits, claim_waits, ended,
  enter_waits, end_waits, Session, has_part, resume, past, is_waiting, all, push, new_level,
  open_barrier,
}
use lace.NewFrame.Invariant.{
  Phase, quiet, gather, reset, between, closing, Allowed, bit, left_of, left, Inv, Sound, all-at,
  parts-first, first-left,
}

none_waits_in_quiet : (i : ℕ) (p : Pc) → Allowed quiet i p → is_waiting p ≡ true → ⊥
none_waits_in_quiet i running ok waits = ground (arith, waits)
none_waits_in_quiet i (starting _) ok waits = ground (arith, waits)
none_waits_in_quiet i _ ok waits = ok

-- What the barrier of `lace_yield` does to a worker.
record Passed (ph : Phase) (i : ℕ) (b : Option Kind) (p : Pc) : Type 1 where
  pub allowed : Allowed ph i (past b p)
  pub level : (l : ℕ) → new_level p l ≡ l
  pub push : {A : Type 0} (f : Task → Option Kind → A) (k l : ℕ) (a : A) → push f k l p a ≡ a

gathered :
    (t : Task) (i : ℕ) (b : Option Kind) (p : Pc)
    → Allowed (gather t) i p
    → is_waiting p ≡ true
    → Passed (reset t) i b p
gathered t i b (copy_waits u c) ok waits = record {
  allowed = ok;
  level = λ l. refl;
  push = λ f k l a. refl;
}
gathered t i b (claim_waits u) ok waits = record {
  allowed = ok;
  level = λ l. refl;
  push = λ f k l a. refl;
}
gathered t i b _ ok waits = absurd (ground (arith, waits, ok))

none_passes :
    (i : ℕ) (t : Task) (p : Pc) → i ≡ t.leader → Allowed (reset t) i p → is_waiting p ≡ false
none_passes i t (resetting u) me ok = refl
none_passes i t (entering u b) me ok = refl
none_passes i t (enter_waits u b) me ok = absurd (ok.1 me)
none_passes i t _ me ok = absurd ok

-- What the first barrier of a frame does to a worker.
record Entered (t : Task) (d : ℕ) (b : Option Kind) (p : Pc) : Type 1 where
  pub past_it : past b p ≡ running
  pub level : new_level p d ≡ suc d
  pub push :
      {A : Type 0} (f : Task → A) (k : ℕ) (a : A)
      → push (λ u _. f u) k d p a ≡ (if k == d then f t else a)

entered :
    (t : Task) (i d : ℕ) (b : Option Kind) (p : Pc)
    → Allowed (between t) i p
    → is_waiting p ≡ true
    → Entered t d b p
entered t i d b (enter_waits u c) ok waits = record {
  past_it = refl;
  level = omega arith;
  push = λ f k a. ap (λ v. if k == d then f v else a) ok;
}
entered t i d b _ ok waits = absurd (ground (arith, waits, ok))

-- What the second barrier of a frame does to a worker.
record Closed (d i : ℕ) (b : Option Kind) (p : Pc) : Type 1 where
  pub allowed : Allowed quiet i (past b p)
  pub level : new_level p d ≡ d - 1
  pub push : {A : Type 0} (f : Task → Option Kind → A) (k l : ℕ) (a : A) → push f k l p a ≡ a

resume-quiet : (i : ℕ) (b : Option Kind) → Allowed quiet i (resume b)
resume-quiet i none = tt
resume-quiet i (some k) = tt

closed :
    (d i : ℕ) (b : Option Kind) (p : Pc)
    → Allowed closing i p
    → is_waiting p ≡ true
    → Closed d i b p
closed d i b end_waits ok waits = record {
  allowed = resume-quiet i b;
  level = refl;
  push = λ f k l a. refl;
}
closed d i b running ok waits = absurd (ground (arith, waits))
closed d i b ended ok waits = absurd (ground (arith, waits))
closed d i b _ ok waits = absurd ok

module _ {n : ℕ} (s : Session) (waits : all is_waiting s.pc n ≡ true) where
  waits_at : (i : ℕ) → i < n → is_waiting (s.pc i) ≡ true
  waits_at = all-at is_waiting s.pc n waits

  open-gather :
      (t : Task) (d : ℕ) (f : ℕ → Task)
      → Inv n s (gather t) d f
      → Inv n (open_barrier s) (reset t) d f
  unfolding open_barrier
  open-gather t d f inv =
      let worker : (i : ℕ) → i < n → Passed (reset t) i (s.back (s.level i - 1) i) (s.pc i) =
        λ i p. gathered t i _ (s.pc i) (inv.allowed i p) (waits_at i p) in
      record {
        small = inv.small;
        newframe = inv.newframe;
        ready = inv.ready;
        allowed = λ i p. (worker i p).allowed;
        level = λ i p. (worker i p).level _ ∙ inv.level i p;
        frame = λ k i p q. (worker i q).push _ k _ _ ∙ inv.frame k i p q;
        lead = inv.lead;
        parts = λ k p. total-ext _ _ n (λ i q. ap bit ((worker i q).push _ k _ _)) ∙ inv.parts k p;
        alive = inv.alive;
      }

  open-closing :
      (d : ℕ) (f : ℕ → Task) → Inv n s closing d f → Inv n (open_barrier s) quiet (d - 1) f
  unfolding open_barrier
  open-closing d f inv =
      let worker : (i : ℕ) → i < n → Closed d i (s.back (s.level i - 1) i) (s.pc i) =
        λ i p. closed d i _ (s.pc i) (inv.allowed i p) (waits_at i p) in
      record {
        small = inv.small;
        newframe = inv.newframe;
        ready = tt;
        allowed = λ i p. (worker i p).allowed;
        level = λ i p. ap (new_level (s.pc i)) (inv.level i p) ∙ (worker i p).level;
        frame = λ k i p q. (worker i q).push _ k _ _ ∙ inv.frame k i (omega arith) q;
        lead = λ k p. inv.lead k (omega arith);
        parts = λ k p.
            total-ext _ _ n (λ i q. ap bit ((worker i q).push _ k _ _)) ∙ inv.parts k (omega arith);
        alive = inv.alive;
      }

  module _ (t : Task) (d : ℕ) (f : ℕ → Task) (inv : Inv n s (between t) d f) where
    worker : (i : ℕ) → i < n → Entered t d (s.back (s.level i - 1) i) (s.pc i)
    worker i p = entered t i d _ (s.pc i) (inv.allowed i p) (waits_at i p)

    new_frame :
        {A : Type 0} (g : Task → A) (k i : ℕ) (a : A)
        → i < n
        → push (λ u _. g u) k (s.level i) (s.pc i) a ≡ (if k == d then g t else a)
    new_frame g k i a p =
        ap (λ l. push (λ u _. g u) k l (s.pc i) a) (inv.level i p) ∙ (worker i p).push g k a

    new_part :
        (k i : ℕ)
        → i < n
        → bit ((open_barrier s).part k i)
          ≡ bit (if k == d then has_part t.kind t.leader i else s.part k i)
    unfolding open_barrier
    new_part k i p = ap bit (new_frame (λ u. has_part u.kind u.leader i) k i (s.part k i) p)

    parts_if :
        (b : Bool) (k : ℕ)
        → (b ≡ false → k < d)
        → total (λ i. bit (if b then has_part t.kind t.leader i else s.part k i)) n
          ≡ left (if b then t else f k) s.sync
    parts_if true k lower =
        parts-first n t.leader t.kind inv.ready.1 ∙ sym (ap (left_of t.kind) inv.ready.2)
    parts_if false k lower = inv.parts k (lower refl)

    alive_if : (b : Bool) (k : ℕ) → (b ≡ false → k < d) → 0 < left (if b then t else f k) s.sync
    alive_if true k lower =
        subst (λ v. 0 < left_of t.kind v) (sym inv.ready.2)
          (first-left n t.leader t.kind inv.ready.1)
    alive_if false k lower = inv.alive k (lower refl)

    open-between : Inv n (open_barrier s) quiet (suc d) (λ k. if k == d then t else f k)
    unfolding open_barrier
    open-between = record {
      small = inv.small;
      newframe = inv.newframe;
      ready = tt;
      allowed = λ i p. subst (Allowed quiet i) (sym (worker i p).past_it) tt;
      level = λ i p. ap (new_level (s.pc i)) (inv.level i p) ∙ (worker i p).level;
      frame = λ k i p q. new_frame (λ u. u) k i (s.frame k i) q ∙ ground (arith, inv.frame k i);
      lead = λ k p. ground (arith, inv.lead k, inv.ready);
      parts = λ k p. total-ext _ _ n (new_part k) ∙ parts_if (k == d) k (λ e. ground (arith, e));
      alive = λ k p. alive_if (k == d) k (λ e. ground (arith, e));
    }

  -- A barrier opens only where all workers are in the same one.
  pub open-Inv :
      (ph : Phase) (d : ℕ) (f : ℕ → Task) (i : ℕ)
      → i < n
      → Inv n s ph d f
      → Sound n (open_barrier s)
  open-Inv quiet d f i p inv =
      absurd (none_waits_in_quiet i (s.pc i) (inv.allowed i p) (waits_at i p))
  open-Inv (gather t) d f i p inv = record {
    ph = reset t;
    d = d;
    f = f;
    inv = open-gather t d f inv;
  }
  open-Inv (reset t) d f i p inv =
      let q = inv.ready.1 in
      absurd (
        ground (
          arith,
          waits_at t.leader q,
          none_passes t.leader t (s.pc t.leader) refl (inv.allowed t.leader q),
        ))
  open-Inv (between t) d f i p inv = record {
    ph = quiet;
    d = suc d;
    f = λ k. if k == d then t else f k;
    inv = open-between t d f inv;
  }
  open-Inv closing d f i p inv = record { ph = quiet; d = d - 1; f = f; inv = open-closing d f inv }
