-- ===== src/NewFrame/Ending.antt =====
-- The invariant where a part of the root task ends.
use lace.Prelude.{
  if_elim, ℕ, zero, suc, ◌+◌, ◌-◌, ◌^◌, ◌≤◌, ◌<◌, ◌≡◌, ◌≢◌, refl, Bool, true, false, not, ◌&&◌,
  ◌||◌, arith, total, total-ext, total-change, le-total, total-le, if◌then◌else◌, ◌==◌, sym, ap,
  subst, ◌∙◌, Bool-cases, inl, inr,
}
use native.Mathlib.Decide.{ℕ_discrete}
use lace.NewFrame.{
  Kind, together, Task, Pc, running, Session, after, is_over, is_running, all, over, after_root,
  end_part, end_root_at,
}
use lace.NewFrame.Invariant.{
  Phase, quiet, gather, reset, between, closing, Allowed, bit, left, live, Ready, Inv, Sound,
  all-at, is_over-none_left, is_over-left, left-after,
}
use lace.NewFrame.Steps.{sound}

bit-le : (b : Bool) → bit b ≤ 1
bit-le true = omega arith
bit-le false = omega arith

module _ {n : ℕ} {s : Session} {ph : Phase} {d : ℕ} {f : ℕ → Task} (inv : Inv n s ph d f) where
  module _ (l i : ℕ) (p : i < n) (top : suc l ≡ d) (mine : s.part l i ≡ true) where
    some_left : 0 < left (f l) s.sync
    some_left =
        ground (arith, le-total (λ j. bit (s.part l j)) n i p, mine, inv.parts l (omega arith))

    few_left : left (f l) s.sync < 2 ^ 32
    few_left = omega (
      arith,
      total-le (λ j. bit (s.part l j)) n (λ j _. bit-le (s.part l j)),
      inv.parts l (omega arith),
      inv.small,
    )

    pub left-top : left (f l) (end_part i l (f l) s).sync + 1 ≡ left (f l) s.sync
    unfolding end_part
    left-top = ground (arith, left-after (f l).kind _ some_left few_left)

    left-below :
        (k : ℕ) → k < d → k ≢ l → left (f k) (end_part i l (f l) s).sync ≡ left (f k) s.sync
    unfolding end_part
    left-below k q other = ground (arith, inv.lead k q, inv.lead l (omega arith), other, top)

    parts-top :
        total (λ j. bit ((end_part i l (f l) s).part l j)) n
        ≡ left (f l) (end_part i l (f l) s).sync
    unfolding end_part
    parts-top =
        let changed =
          total-change (λ j. bit (s.part l j)) (λ j. bit ((end_part i l (f l) s).part l j)) n i p
            (λ j e. ground (arith, e)) in
        let ended_here : bit ((end_part i l (f l) s).part l i) ≡ 0 = ground arith in
        omega (arith, changed, ended_here, ap bit mine, left-top, inv.parts l (omega arith))

    parts-below :
        (k : ℕ)
        → k ≢ l
        → total (λ j. bit ((end_part i l (f l) s).part k j)) n ≡ total (λ j. bit (s.part k j)) n
    unfolding end_part
    parts-below k other = total-ext _ _ n (λ j _. ground (arith, other))

    parts_after :
        (k : ℕ)
        → k < d
        → total (λ j. bit ((end_part i l (f l) s).part k j)) n
          ≡ left (f k) (end_part i l (f l) s).sync
    parts_after k q = elim (ℕ_discrete k l) [
      | yes same ↦
          subst
            (λ m.
              total (λ j. bit ((end_part i l (f l) s).part m j)) n
              ≡ left (f m) (end_part i l (f l) s).sync)
            (sym same) parts-top
      | no other ↦ parts-below k other ∙ inv.parts k q ∙ sym (left-below k q other)
    ]

after_root_live : (k : Kind) (v : ℕ) → is_over k (after k v) ≡ false → after_root k ≡ running
after_root_live Kind.newframe v p = absurd (ground (arith, p))
after_root_live together v p = refl

after_root_closing : (i : ℕ) (k : Kind) → Allowed closing i (after_root k)
after_root_closing i Kind.newframe = tt
after_root_closing i together = tt

not_running :
    (t : Task) (i : ℕ) (p : Pc) → i ≡ t.leader → Allowed (gather t) i p → is_running p ≡ true → ⊥
not_running t i running me ok e = ok me
not_running t i _ me ok e = ground (arith, e)

running-closing : (i : ℕ) (p : Pc) → is_running p ≡ true → Allowed closing i p
running-closing i running e = tt
running-closing i _ e = absurd (ground (arith, e))

module _ {n : ℕ} (s : Session) {d : ℕ} (f : ℕ → Task) (l i : ℕ) (p : i < n) (top : suc l ≡ d) where
  module _ (mine : s.part l i ≡ true) where
    -- Not the last part: the frame goes on.
    end_one :
        (ph : Phase)
        → Inv n s ph d f
        → live ph d ≡ d
        → Ready ph n d (end_part i l (f l) s).sync f
        → Allowed ph i running
        → over (f l) (end_part i l (f l) s) ≡ false
        → Inv n (end_part i l (f l) s) ph d f
    unfolding end_part over
    end_one ph inv lives ready ok goes_on = record {
      small = inv.small;
      newframe = inv.newframe;
      ready = ready;
      allowed = λ j q.
          if_elim (Allowed ph j) (i == j) _ _
            (λ e.
              subst (Allowed ph j)
                (sym (
                  after_root_live (f l).kind (s.sync (f l).leader (f l).level)
                    (ground (arith, goes_on))))
                (subst (λ m. Allowed ph m running) (ground (arith, e)) ok))
            (λ e. inv.allowed j q);
      level = inv.level;
      frame = inv.frame;
      lead = inv.lead;
      parts = parts_after inv l i p top mine;
      alive = λ k q. elim (ℕ_discrete k l) [
        | yes same ↦
            subst (λ m. 0 < left (f m) (end_part i l (f l) s).sync) (sym same)
              (is_over-left (f l).kind _ goes_on)
        | no other ↦
            omega
              (arith, inv.alive k q, left-below inv l i p top mine k (omega (arith, lives)) other)
      ];
    }

    -- The last one: all workers run, and the frame closes.
    end_last :
        Inv n s quiet d f
        → all is_running s.pc n ≡ true
        → over (f l) (end_part i l (f l) s) ≡ true
        → Inv n (end_part i l (f l) s) closing d f
    unfolding end_part over
    end_last inv run ends = record {
      small = inv.small;
      newframe = inv.newframe;
      ready = (
        omega (arith, top),
        ap (λ m. left (f m) (end_part i l (f l) s).sync) (omega (arith, top))
            ∙ is_over-none_left (f l).kind _ ends,
      );
      allowed = λ j q.
          if_elim (Allowed closing j) (i == j) _ _ (λ e. after_root_closing j (f l).kind)
            (λ e. running-closing j (s.pc j) (all-at is_running s.pc n run j q));
      level = inv.level;
      frame = inv.frame;
      lead = inv.lead;
      parts = parts_after inv l i p top mine;
      alive = λ k q. omega (
        arith,
        inv.alive k (omega arith),
        left-below inv l i p top mine k (omega arith) (omega (arith, top)),
      );
    }

  leader_busy : (t : Task) → Inv n s (gather t) d f → all is_running s.pc n ≡ false
  leader_busy t inv = elim (Bool-cases (all is_running s.pc n)) [
    | inl e ↦ absurd (
        not_running t t.leader (s.pc t.leader) refl (inv.allowed t.leader inv.ready.1)
          (all-at is_running s.pc n e t.leader inv.ready.1))
    | inr e ↦ e
  ]

  still_fresh :
      (t : Task) → Inv n s (gather t) d f → Ready (gather t) n d (end_part i l (f l) s).sync f
  unfolding end_part
  still_fresh t inv =
      (inv.ready.0, inv.ready.1, ground (arith, inv.ready, inv.lead l (omega arith), top))

  end-Inv :
      (ph : Phase)
      → Inv n s ph d f
      → Allowed ph i running
      → s.part l i ≡ true
      → (all is_running s.pc n || not (over (f l) (end_part i l (f l) s))) ≡ true
      → Sound n (end_part i l (f l) s)
  end-Inv quiet inv ok mine may = elim (Bool-cases (over (f l) (end_part i l (f l) s))) [
    | inl ends ↦ sound (end_last mine inv (ground (arith, may, ends)) ends)
    | inr goes_on ↦ sound (end_one mine quiet inv refl tt tt goes_on)
  ]
  end-Inv (gather t) inv ok mine may = sound (
      end_one mine (gather t) inv refl (still_fresh t inv) ok
        (ground (arith, may, leader_busy t inv)))
  end-Inv closing inv ok mine may =
      absurd (
        omega
          (arith, some_left inv l i p top mine, inv.ready.1, ap (λ m. left (f m) s.sync) top_is))
    where
      top_is : l ≡ d - 1
      top_is = omega (arith, top)
  end-Inv (reset t) inv ok mine may = absurd ok
  end-Inv (between t) inv ok mine may = absurd ok

pub end_root-Inv :
    {n : ℕ} {s : Session} {ph : Phase} {d : ℕ} {f : ℕ → Task} (i l : ℕ)
    → i < n
    → l ≡ d
    → Inv n s ph d f
    → Allowed ph i running
    → Sound n (end_root_at n i l s)
unfolding end_root_at
end_root-Inv i zero p e inv ok = sound inv
end_root-Inv {n} {s} {ph} {d} {f} i (suc l) p e inv ok =
    subst
      (λ t. Sound n (
        if s.part l i && (all is_running s.pc n || not (over t (end_part i l t s)))
        then end_part i l t s
        else s))
      (sym (inv.frame l i (omega arith) p))
      (if_elim (Sound n) _ _ _
        (λ b. end-Inv s f l i p e ph inv ok (ground (arith, b)) (ground (arith, b)))
        (λ _. sound inv))
