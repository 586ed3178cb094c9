-- ===== src/Deque/Invariant/Stealing.antt =====
-- The steps of `lace_steal` keep the invariant, whatever the owner is doing.
use lace.Prelude.{
  ℕ, ◌+◌, ◌^◌, ◌<◌, ◌≡◌, ◌≢◌, refl, Bool, true, ◌&&◌, arith, ap, if_both, ltb, u32, update, bump,
  none, some,
}
use lace.Deque.State.{
  OwnerPc, ready, spawning, unasking, growing, reopening, landed, clearing, Thief, worker,
  completed, TailSplit, ThiefPc, rest, looked, loaded, won, marked, running, asking, requesting,
  StealResult, stolen, System,
}
use lace.Deque.Steal.{steal_at, same}
use lace.Deque.Slots.{
  claim, Agree, Slots-done, Slots-idle, Slots-win, Slots-mark, Slots-start, Slots-finish,
}
use lace.Deque.Invariant.Defs.{Inv, InvAt, Shape, AtHead, bound}

-- A successful compare-exchange keeps the shape, and takes a slot that is in use.
Shape-win :
    (p : OwnerPc) (a : Bool) (t s w h e : ℕ)
    → Shape p a t s w h e
    → e < 2 ^ 31
    → t < s
    → Shape p a (t + 1) s w h e × (t < bound p h) × (t + 1 < 2 ^ 32)
Shape-win ready a t s w h e sh small lt = ground arith
Shape-win _ a t s w h e sh small lt = ground arith

-- A thief's store to a slot that is in use and not done leaves the one at the head as it was.
AtHead-update :
    (p : OwnerPc) (thief : ℕ → Thief) (h v n i : ℕ) (t : Thief)
    → AtHead p (thief h) v n
    → i < bound p h
    → thief i ≢ completed
    → AtHead p (update thief i t h) v n
AtHead-update spawning thief h v n i t a low busy = ground arith
AtHead-update unasking thief h v n i t a low busy = ground arith
AtHead-update growing thief h v n i t a low busy = ground arith
AtHead-update reopening thief h v n i t a low busy = ground arith
AtHead-update landed thief h v n i t a low busy = ground arith
AtHead-update clearing thief h v n i t a low busy = ground arith
AtHead-update ready thief h v n i t a low busy = tt
AtHead-update _ thief h v n i t a low busy = tt

-- A slot that a thief holds is in use and not done.
held_facts :
    {p : OwnerPc} {s : System} (k i : ℕ)
    → InvAt p s
    → claim (s.pc k) ≡ some i
    → (i < bound p s.head) × (s.thief i ≢ completed)
held_facts {p} {s} k i inv c = (fact.1, λ done. Slots-done inv.slots done k c)
  where
    fact : (i < s.wt.ts.tail) × (i < bound p s.head) × Agree (s.pc k) k (s.thief i) (s.runs (s.f i))
    fact = inv.slots.held k i c

module _ {s : System} (inv : Inv s) (k : ℕ) where
  goto-Inv :
      (p : ThiefPc)
      → claim (s.pc k) ≡ none
      → claim p ≡ none
      → ((ts : TailSplit) → p ≡ loaded ts → ts.tail < ts.split)
      → Inv (record s { pc = update s.pc k p })
  goto-Inv p before after low = record {
    small = inv.small;
    shape = inv.shape;
    agree = inv.agree;
    below = inv.below;
    chain = inv.chain;
    at_head = inv.at_head;
    loads = λ j ts. ground (arith, inv.loads j ts, low ts);
    slots = Slots-idle inv.slots k p before after;
  }

  win-Inv :
      (ts : TailSplit)
      → s.pc k ≡ loaded ts
      → same s.wt.ts ts ≡ true
      → Inv (record s {
        wt = record (s.wt) { ts = record ts { tail = u32 (ts.tail + 1) } };
        pc = update s.pc k (won ts.tail);
      })
  unfolding same
  win-Inv ts here eq = record {
    small = inv.small;
    shape = ground (arith, facts);
    agree = inv.agree;
    below = ground (arith, inv.below, facts);
    chain = inv.chain;
    at_head = inv.at_head;
    loads = λ j us. ground (arith, inv.loads j us);
    slots = rw (← tails) (rw word (Slots-win inv.slots k (ap claim here) facts.1));
  }
    where
      tails : s.wt.ts.tail ≡ ts.tail
      tails = ground arith

      splits : s.wt.ts.split ≡ ts.split
      splits = ground arith

      facts :
          Shape s.at s.w.allstolen (s.wt.ts.tail + 1) s.wt.ts.split s.w.split s.head s.w.end
          × (s.wt.ts.tail < bound s.at s.head)
          × (s.wt.ts.tail + 1 < 2 ^ 32)
      facts =
          Shape-win s.at _ _ _ _ _ _ inv.shape inv.small
            (omega (arith, inv.loads k ts here, tails, splits))

      word : u32 (s.wt.ts.tail + 1) ≡ s.wt.ts.tail + 1
      word = omega (arith, facts.2)

  mark-Inv :
      (i : ℕ)
      → s.pc k ≡ won i
      → Inv (record s { thief = update s.thief i (worker k); pc = update s.pc k (marked i) })
  mark-Inv i here = record {
    small = inv.small;
    shape = inv.shape;
    agree = inv.agree;
    below = inv.below;
    chain = inv.chain;
    at_head = AtHead-update s.at s.thief s.head _ _ i _ inv.at_head facts.0 facts.1;
    loads = λ j us. ground (arith, inv.loads j us);
    slots = Slots-mark inv.slots k i here;
  }
    where
      facts : (i < bound s.at s.head) × (s.thief i ≢ completed)
      facts = held_facts k i inv (ap claim here)

  start-Inv :
      (i : ℕ)
      → s.pc k ≡ marked i
      → Inv (record s { runs = bump s.runs (s.f i); pc = update s.pc k (running i) })
  start-Inv i here = record {
    small = inv.small;
    shape = inv.shape;
    agree = inv.agree;
    below = inv.below;
    chain = inv.chain;
    at_head = inv.at_head;
    loads = λ j us. ground (arith, inv.loads j us);
    slots = (Slots-start inv.slots k i here).1;
  }

  finish-Inv :
      (i : ℕ)
      → s.pc k ≡ running i
      → Inv (record s { thief = update s.thief i completed; pc = update s.pc k (rest stolen) })
  finish-Inv i here = record {
    small = inv.small;
    shape = inv.shape;
    agree = inv.agree;
    below = inv.below;
    chain = inv.chain;
    at_head = AtHead-update s.at s.thief s.head _ _ i _ inv.at_head facts.0 facts.1;
    loads = λ j us. ground (arith, inv.loads j us);
    slots = Slots-finish inv.slots k i stolen here;
  }
    where
      facts : (i < bound s.at s.head) × (s.thief i ≢ completed)
      facts = held_facts k i inv (ap claim here)

  request-Inv :
      s.pc k ≡ requesting
      → Inv (record s {
        wt = record (s.wt) { movesplit = true };
        pc = update s.pc k (rest StealResult.nowork);
      })
  request-Inv here = record {
    small = inv.small;
    shape = inv.shape;
    agree = inv.agree;
    below = inv.below;
    chain = inv.chain;
    at_head = inv.at_head;
    loads = λ j us. ground (arith, inv.loads j us);
    slots = Slots-idle inv.slots k (rest StealResult.nowork) (ap claim here) refl;
  }

  pub steal_at-Inv : (luck : Bool) (p : ThiefPc) → s.pc k ≡ p → Inv (steal_at luck k p s)
  unfolding steal_at
  steal_at-Inv luck (rest r) here =
      if_both Inv s.wt.allstolen
        (λ gone. goto-Inv (rest StealResult.nowork) (ap claim here) refl (λ ts e. cc))
        (λ live. goto-Inv looked (ap claim here) refl (λ ts e. cc))
  steal_at-Inv luck looked here =
      if_both Inv (ltb s.wt.ts.tail s.wt.ts.split)
        (λ some_shared. goto-Inv (loaded s.wt.ts) (ap claim here) refl (λ ts e. ground arith))
        (λ none_shared. goto-Inv asking (ap claim here) refl (λ ts e. cc))
  steal_at-Inv luck (loaded ts) here =
      if_both Inv (luck && same s.wt.ts ts) (λ success. win-Inv ts here (ground arith))
        (λ failure. goto-Inv (rest StealResult.busy) (ap claim here) refl (λ ts e. cc))
  steal_at-Inv luck (won i) here = mark-Inv i here
  steal_at-Inv luck (marked i) here = start-Inv i here
  steal_at-Inv luck (running i) here = finish-Inv i here
  steal_at-Inv luck asking here =
      if_both Inv s.wt.movesplit
        (λ asked. goto-Inv (rest StealResult.nowork) (ap claim here) refl (λ ts e. cc))
        (λ ask. goto-Inv requesting (ap claim here) refl (λ ts e. cc))
  steal_at-Inv luck requesting here = request-Inv here
