-- ===== src/Deque/Frame/Phases.antt =====
-- What is known at each point of a frame, in any interleaving with thieves.
use lace.Prelude.{
  ℕ, ◌^◌, ◌≤◌, ◌<◌, ◌≡◌, refl, sym, ◌∙◌, ap, subst, Bool, ◌&&◌, ◌==◌, if_both, arith, List, [], ◌∷◌,
}
use lace.Deque.State.{ready, Command, System, ThiefPc, loaded}
use lace.Deque.Steal.{steal, steal_at, same, goto as thief_goto}
use lace.Deque.Invariant.{Inv, InvAt, Loads}
use lace.Deque.Frame.{
  root_step, is_ready, FramePc, entered, hidden, closed, measured, inside, uncovered, left, Frame,
  enter, frame_at, FrameMove, frame_step, run_frame,
}
use lace.Deque.Frame.Invariant.{Inside, root_step-Inside, steal_at-Inside}

-- What the old frame was, in the frame's state.
abbrev pub Saved : System → Frame → Type 0
Saved s m =
    (m.old_as ≡ s.wt.allstolen)
    × (m.old ≡ m.cut)
    × (m.cut.split ≡ s.wt.ts.split)
    × (s.wt.ts.tail ≤ m.cut.tail)

-- What is known at each point, of the frame that was entered at `s`.
abbrev pub Phase : FramePc → System → Frame → Type 0
Phase entered s m =
    (m.sys.wt.allstolen ≡ s.wt.allstolen)
    × (m.sys.wt.ts.split ≡ s.wt.ts.split)
    × (s.wt.ts.tail ≤ m.sys.wt.ts.tail)
Phase hidden s m =
    (m.old_as ≡ s.wt.allstolen)
    × (m.sys.wt.ts.split ≡ s.wt.ts.split)
    × (s.wt.ts.tail ≤ m.sys.wt.ts.tail)
Phase closed s m =
    (m.old_as ≡ s.wt.allstolen)
    × (m.old.split ≡ s.wt.ts.split)
    × (m.cut.split ≡ s.wt.ts.split)
    × (s.wt.ts.tail ≤ m.cut.tail)
    × (m.sys.wt.ts.tail ≡ m.cut.tail)
    × (m.sys.wt.ts.split ≡ 0)
Phase measured s m = Saved s m × (m.sys.wt.ts.split ≡ 0)
Phase inside s m = Saved s m × Inside m.bottom m.sys
Phase uncovered s m =
    Saved s m
    × Inside m.bottom m.sys
    × (m.sys.head ≡ m.bottom)
    × (m.sys.wt.allstolen ≡ m.old_as)
    × (m.sys.at ≡ ready)
Phase left s m = Unit

-- Before the frame is open.
abbrev pub Early : FramePc → System → Frame → Type 0
Early inside s m = Unit
Early uncovered s m = Unit
Early left s m = Unit
Early _ s m =
    (m.sys.at ≡ ready)
    × (m.sys.head ≡ m.bottom)
    × (m.sys.w.end < 2 ^ 31)
    × (m.sys.head ≤ m.sys.w.end)

pub record Framed (s : System) (m : Frame) : Type 0 where
  pub bottom : m.bottom ≡ s.head
  pub outer : m.outer ≡ s.pins
  pub loads : Loads m.sys.pc
  pub room : s.wt.ts.tail < s.wt.ts.split → s.wt.ts.split < 2 ^ 32
  pub early : Early m.pc s m
  pub phase : Phase m.pc s m

-- What a thief's access changes.
steal_facts :
    (luck : Bool) (k : ℕ) (s : System) (p : ThiefPc)
    → s.pc k ≡ p
    → Loads s.pc
    → Loads (steal_at luck k p s).pc
      × ((steal_at luck k p s).at ≡ s.at)
      × ((steal_at luck k p s).head ≡ s.head)
      × ((steal_at luck k p s).w ≡ s.w)
      × ((steal_at luck k p s).wt.allstolen ≡ s.wt.allstolen)
      × ((steal_at luck k p s).wt.ts.split ≡ s.wt.ts.split)
unfolding steal_at thief_goto same
steal_facts luck k s p at loads = (
  λ j ts e. ground (arith, loads j ts),
  ground arith,
  ground arith,
  ground arith,
  ground arith,
  ground arith,
)

steal_raises :
    (luck : Bool) (k : ℕ) (s : System) (p : ThiefPc)
    → s.pc k ≡ p
    → Loads s.pc
    → (s.wt.ts.tail < s.wt.ts.split → s.wt.ts.split < 2 ^ 32)
    → s.wt.ts.tail ≤ (steal_at luck k p s).wt.ts.tail
unfolding steal_at thief_goto same
steal_raises luck k s (loaded ts) at loads room = ground (arith, loads k ts at, room)
steal_raises luck k s p at loads room = ground arith

-- No steal succeeds while the split point is 0.
steal_shut :
    (luck : Bool) (k : ℕ) (s : System) (p : ThiefPc)
    → s.pc k ≡ p
    → Loads s.pc
    → s.wt.ts.split ≡ 0
    → (steal_at luck k p s).wt.ts.tail ≡ s.wt.ts.tail
unfolding steal_at thief_goto same
steal_shut luck k s (loaded ts) at loads shut = ground (arith, loads k ts at)
steal_shut luck k s p at loads shut = ground arith

module _ {s : System} {m : Frame} (framed : Framed s m) where
  pub phase_at : (p : FramePc) → m.pc ≡ p → Phase p s m × Early p s m
  phase_at p at =
      (subst (λ q. Phase q s m) at framed.phase, subst (λ q. Early q s m) at framed.early)

  -- The step to the next point.
  next :
      (m' : Frame) (p : FramePc)
      → m'.pc ≡ p
      → m'.bottom ≡ m.bottom
      → m'.outer ≡ m.outer
      → Loads m'.sys.pc
      → Early p s m'
      → Phase p s m'
      → Framed s m'
  next m' p at eb eo loads early phase = record {
    bottom = eb ∙ framed.bottom;
    outer = eo ∙ framed.outer;
    loads = loads;
    room = framed.room;
    early = subst (λ q. Early q s m') (sym at) early;
    phase = subst (λ q. Phase q s m') (sym at) phase;
  }

  -- The new frame is open.
  opened :
      m.pc ≡ measured → (c : Command) (b : Bool) → Inside m.bottom (frame_at b c measured m).sys
  unfolding frame_at
  opened at c b =
      let (ph, early) = phase_at measured at in
      record {
        small = early.2;
        low = ground arith;
        high = ground (arith, early);
        pins = tt;
        tail = ground (arith, early);
        split = ground arith;
        pending = ground (arith, early);
        loads = framed.loads;
      }

  uncover :
      {a : Bool}
      → Inside m.bottom m.sys
      → Inside m.bottom (record (m.sys) { wt = record (m.sys.wt) { allstolen = a } })
  uncover i = record {
    small = i.small;
    low = i.low;
    high = i.high;
    pins = i.pins;
    tail = i.tail;
    split = i.split;
    pending = i.pending;
    loads = i.loads;
  }

  pub frame_at-Framed :
      (b : Bool) (c : Command) (p : FramePc) → m.pc ≡ p → Framed s (frame_at b c p m)
  unfolding frame_at
  frame_at-Framed b c entered at =
      let (ph, early) = phase_at entered at in
      next (frame_at b c entered m) hidden refl refl refl framed.loads early (ph.0, ph.1, ph.2)
  frame_at-Framed b c hidden at =
      let (ph, early) = phase_at hidden at in
      next (frame_at b c hidden m) closed refl refl refl framed.loads early
        (ph.0, ph.1, ph.1, ph.2, refl, refl)
  frame_at-Framed b c closed at =
      let (ph, early) = phase_at closed at in
      next (frame_at b c closed m) measured refl refl refl framed.loads early
        ((ph.0, ground (arith, ph), ph.2, ph.3), ph.5)
  frame_at-Framed b c measured at =
      let (ph, early) = phase_at measured at in
      next (frame_at b c measured m) inside refl refl refl framed.loads tt (ph.0, opened at c b)
  frame_at-Framed b c inside at =
      let (ph, early) = phase_at inside at in
      if_both (Framed s) b
        (λ _.
          let more = root_step-Inside ph.1 c m.sys.at refl in
          next (record m { sys = root_step m.bottom c m.sys.at m.sys }) inside at refl refl
            more.loads tt (ph.0, more))
        (λ _.
          if_both (Framed s) (is_ready m.sys.at && m.sys.head == m.bottom)
            (λ e.
              next
                (record m {
                  sys = record (m.sys) { wt = record (m.sys.wt) { allstolen = m.old_as } };
                  pc = uncovered;
                })
                uncovered refl refl refl framed.loads tt
                (ph.0, uncover ph.1, ground (arith, e), refl, ground (arith, e)))
            (λ _. framed))
  frame_at-Framed b c uncovered at =
      next (frame_at b c uncovered m) left refl refl refl framed.loads tt tt
  frame_at-Framed b c left at = framed

  pub steal-Framed : (luck : Bool) (k : ℕ) → Framed s (record m { sys = steal luck k m.sys })
  unfolding steal
  steal-Framed luck k = by_point m.pc refl
    where
      stolen : System
      stolen = steal_at luck k (m.sys.pc k) m.sys

      facts :
          Loads stolen.pc
          × (stolen.at ≡ m.sys.at)
          × (stolen.head ≡ m.sys.head)
          × (stolen.w ≡ m.sys.w)
          × (stolen.wt.allstolen ≡ m.sys.wt.allstolen)
          × (stolen.wt.ts.split ≡ m.sys.wt.ts.split)
      facts = steal_facts luck k m.sys (m.sys.pc k) refl framed.loads

      raises :
          (m.sys.wt.ts.tail < m.sys.wt.ts.split → m.sys.wt.ts.split < 2 ^ 32)
          → m.sys.wt.ts.tail ≤ stolen.wt.ts.tail
      raises = steal_raises luck k m.sys (m.sys.pc k) refl framed.loads

      shut : m.sys.wt.ts.split ≡ 0 → stolen.wt.ts.tail ≡ m.sys.wt.ts.tail
      shut = steal_shut luck k m.sys (m.sys.pc k) refl framed.loads

      stays :
          (m.sys.at ≡ ready)
            × (m.sys.head ≡ m.bottom)
            × (m.sys.w.end < 2 ^ 31)
            × (m.sys.head ≤ m.sys.w.end)
          → (stolen.at ≡ ready)
            × (stolen.head ≡ m.bottom)
            × (stolen.w.end < 2 ^ 31)
            × (stolen.head ≤ stolen.w.end)
      stays (a, b, c, d) = (
        facts.1 ∙ a,
        facts.2 ∙ b,
        omega (arith, c, ap (λ w. w.end) facts.3),
        omega (arith, d, facts.2, ap (λ w. w.end) facts.3),
      )

      go :
          (p : FramePc)
          → m.pc ≡ p
          → Early p s (record m { sys = stolen })
          → Phase p s (record m { sys = stolen })
          → Framed s (record m { sys = stolen })
      go p at early phase = next (record m { sys = stolen }) p at refl refl facts.0 early phase

      by_point : (p : FramePc) → m.pc ≡ p → Framed s (record m { sys = stolen })
      by_point entered at =
          let (ph, early) = phase_at entered at in
          go entered at (stays early) (
            facts.4 ∙ ph.0,
            facts.5 ∙ ph.1,
            omega (arith, ph.2, raises (λ lt. ground (arith, framed.room, ph))),
          )
      by_point hidden at =
          let (ph, early) = phase_at hidden at in
          go hidden at (stays early) (
            ph.0,
            facts.5 ∙ ph.1,
            omega (arith, ph.2, raises (λ lt. ground (arith, framed.room, ph))),
          )
      by_point closed at =
          let (ph, early) = phase_at closed at in
          go closed at (stays early) (ph.0, ph.1, ph.2, ph.3, shut ph.5 ∙ ph.4, facts.5 ∙ ph.5)
      by_point measured at =
          let (ph, early) = phase_at measured at in
          go measured at (stays early) (ph.0, facts.5 ∙ ph.1)
      by_point inside at =
          let (ph, early) = phase_at inside at in
          go inside at tt (ph.0, steal_at-Inside ph.1 luck k (m.sys.pc k) refl)
      by_point uncovered at =
          let (ph, early) = phase_at uncovered at in
          go uncovered at tt (
            ph.0,
            steal_at-Inside ph.1 luck k (m.sys.pc k) refl,
            facts.2 ∙ ph.2,
            facts.4 ∙ ph.3,
            facts.1 ∙ ph.4,
          )
      by_point left at = go left at tt tt

frame_step-Framed :
    (x : FrameMove) (s : System) (m : Frame) → Framed s m → Framed s (frame_step m x)
unfolding frame_step
frame_step-Framed (FrameMove.owner b c) s m framed = frame_at-Framed framed b c m.pc refl
frame_step-Framed (FrameMove.thief luck k) s m framed = steal-Framed framed luck k

run_from-Framed :
    (l : List FrameMove) (s : System) (m : Frame) → Framed s m → Framed s (run_frame l m)
unfolding run_frame
run_from-Framed [] s m framed = framed
run_from-Framed (x ∷ l) s m framed =
    run_from-Framed l s (frame_step m x) (frame_step-Framed x s m framed)

-- A frame that is entered in application code.
enter-Framed : (s : System) → Inv s → s.at ≡ ready → Framed s (enter s)
enter-Framed s inv at = record {
  bottom = refl;
  outer = refl;
  loads = inv.loads;
  room = λ lt. ground (arith, here.shape, here.small);
  early = (at, refl, inv.small, ground (arith, here.shape));
  phase = (refl, refl, omega arith);
}
  where
    here : InvAt ready s
    here = subst (λ p. InvAt p s) at inv

pub run_frame-Framed :
    (l : List FrameMove) (s : System) → Inv s → s.at ≡ ready → Framed s (run_frame l (enter s))
run_frame-Framed l s inv at = run_from-Framed l s (enter s) (enter-Framed s inv at)
