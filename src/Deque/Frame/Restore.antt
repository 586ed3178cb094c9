-- ===== src/Deque/Frame/Restore.antt =====
-- What a frame leaves: the deque is put back as it was, but for the owner's split point where the
-- old frame had all its tasks stolen.
use lace.Prelude.{
  ℕ, ◌+◌, ◌-◌, ◌^◌, ◌≤◌, ◌<◌, ◌≡◌, refl, sym, ◌∙◌, ap, subst, Bool, true, false, arith, List,
}
use lace.Deque.State.{
  TailSplit, ready, popping, taking, Command, sync_next, sync, System, loaded, won,
}
use lace.Deque.Owner.{goto, base, own, owner_at, command, pop_task, pop_fast}
use lace.Deque.Steal.{steal, steal_at, same, goto as thief_goto}
use lace.Deque.Interleaving.{init_worker, Move, run}
use lace.Deque.Invariant.{InvAt, run-Inv}
use lace.Deque.Frame.{
  FramePc, entered, hidden, closed, measured, inside, uncovered, left, Frame, enter, frame_at,
  FrameMove, owner, frame_step, run_frame,
}
use lace.Deque.Frame.Phases.{Framed, run_frame-Framed, phase_at, Phase}

-- The points between which the old frame is put aside.
abbrev pub is_aside : FramePc → Bool
is_aside closed = true
is_aside measured = true
is_aside inside = true
is_aside uncovered = true
is_aside _ = false

aside :
    {s : System} {m : Frame} (luck : Bool) (k i : ℕ) (ts : TailSplit) (p : FramePc)
    → Framed s m
    → m.pc ≡ p
    → is_aside p ≡ true
    → m.sys.pc k ≡ loaded ts
    → (steal_at luck k (loaded ts) m.sys).pc k ≡ won i
    → m.bottom ≤ i
unfolding steal_at thief_goto same
aside luck k i ts entered framed at e loads wins = absurd (ground arith)
aside luck k i ts hidden framed at e loads wins = absurd (ground arith)
aside luck k i ts left framed at e loads wins = absurd (ground arith)
aside luck k i ts closed framed at e loads wins =
    let (ph, early) = phase_at framed closed at in ground (arith, framed.loads k ts loads, ph.5)
aside luck k i ts measured framed at e loads wins =
    let (ph, early) = phase_at framed measured at in ground (arith, framed.loads k ts loads, ph.1)
aside luck k i ts inside framed at e loads wins =
    let (ph, early) = phase_at framed inside at in ground (arith, ph.1.tail)
aside luck k i ts uncovered framed at e loads wins =
    let (ph, early) = phase_at framed uncovered at in ground (arith, ph.1.tail)

popped_lem :
    (t : System)
    → base t.pins < t.head
    → owner_at sync_next ready t ≡ record t { head = t.head - 1; at = popping sync }
unfolding owner_at command pop_task
popped_lem t more = ground arith

fast_lem :
    (t : System)
    → t.w.split ≤ t.head
    → t.wt.movesplit ≡ false
    → ((owner_at sync_next (popping sync) t).at ≡ taking)
      × ((owner_at sync_next (popping sync) t).head ≡ t.head)
      × ((owner_at sync_next (popping sync) t).wt ≡ t.wt)
unfolding owner_at pop_fast goto
fast_lem t low quiet = (ground arith, ground arith, ground arith)

-- `SYNC` of a task at or above the owner's split point.
pop_fast_lem :
    (t : System)
    → t.at ≡ ready
    → base t.pins < t.head
    → t.w.split < t.head
    → t.wt.movesplit ≡ false
    → ((own sync_next (own sync_next t)).at ≡ taking)
      × ((own sync_next (own sync_next t)).head + 1 ≡ t.head)
      × ((own sync_next (own sync_next t)).wt ≡ t.wt)
unfolding own
pop_fast_lem t at more low quiet =
    subst
      (λ u.
        ((own sync_next u).at ≡ taking)
        × ((own sync_next u).head + 1 ≡ t.head)
        × ((own sync_next u).wt ≡ t.wt))
      (sym popped) second
  where
    once : System
    once = record t { head = t.head - 1; at = popping sync }

    popped : own sync_next t ≡ once
    popped = ap (λ p. owner_at sync_next p t) at ∙ popped_lem t more

    second :
        ((own sync_next once).at ≡ taking)
        × ((own sync_next once).head + 1 ≡ t.head)
        × ((own sync_next once).wt ≡ t.wt)
    second = let (a, b, c) = fast_lem once (ground arith) quiet in (a, ground (arith, b), c)

-- What the last access leaves, of the frame that was entered at `s` and ends with `m`.
pub record Restored (s : System) (m m' : Frame) : Type 0 where
  pub pair : m'.sys.wt.ts ≡ m.cut
  pub cut_split : m.cut.split ≡ s.wt.ts.split
  pub cut_tail : s.wt.ts.tail ≤ m.cut.tail
  pub split : m'.sys.w.split ≡ s.wt.ts.split
  pub allstolen : m'.sys.wt.allstolen ≡ s.wt.allstolen
  pub own_allstolen : m'.sys.w.allstolen ≡ s.w.allstolen
  pub head : m'.sys.head ≡ s.head
  pub pins : m'.sys.pins ≡ s.pins
  pub at : m'.sys.at ≡ ready
  pub movesplit : m'.sys.wt.movesplit ≡ m.sys.wt.movesplit

-- The frame is entered in application code, after any run of the deque.
module _ (before : List Move) (dqsize : ℕ) (small : dqsize < 2 ^ 31)
    (calm : (run before (init_worker dqsize)).at ≡ ready) (l : List FrameMove) where
  abbrev entry : System
  entry = run before (init_worker dqsize)

  abbrev final : Frame
  final = run_frame l (enter entry)

  reached : Framed entry final
  reached = run_frame-Framed l entry (run-Inv before dqsize small) calm

  deque : InvAt ready entry
  deque = subst (λ p. InvAt p entry) calm (run-Inv before dqsize small)

  -- In any interleaving with thieves, from the store that sets the old split point to 0 until the
  -- old pair is stored again, no thief wins a task of the old frame: what it wins lies at or above
  -- the bottom of the new frame.
  pub old_frame_safe :
      (luck : Bool) (k i : ℕ) (ts : TailSplit)
      → is_aside final.pc ≡ true
      → final.sys.pc k ≡ loaded ts
      → (steal luck k final.sys).pc k ≡ won i
      → final.bottom ≤ i
  unfolding steal
  old_frame_safe luck k i ts e loads wins =
      aside luck k i ts final.pc reached refl e loads
        (subst (λ p. (steal_at luck k p final.sys).pc k ≡ won i) loads wins)

  -- In any interleaving with thieves, and whatever the root task does in its frame, the last access
  -- of `lace_exec_in_new_frame` puts back the old frame: the pair as it was when the split point was
  -- set to 0, with the split point of the entry and a tail that thieves had moved on until then, both
  -- copies of `allstolen`, the head, and the tasks that are waited for. The owner's split point is
  -- the public one.
  pub frame_restores :
      (b : Bool) (c : Command)
      → final.pc ≡ uncovered
      → Restored entry final (frame_step final (owner b c))
  unfolding frame_step
  frame_restores b c at =
      subst (λ p. Restored entry final (frame_at b c p final)) (sym at)
        (by_phase (phase_at reached uncovered at).0)
    where
      by_phase : Phase uncovered entry final → Restored entry final (frame_at b c uncovered final)
      by_phase ph =
          unfold frame_at in
          record {
            pair = ph.0.1;
            cut_split = ph.0.2;
            cut_tail = ph.0.3;
            split = ap (λ ts. ts.split) ph.0.1 ∙ ph.0.2;
            allstolen = ph.3 ∙ ph.0.0;
            own_allstolen = ph.0.0 ∙ deque.agree;
            head = ph.2 ∙ reached.bottom;
            pins = reached.outer;
            at = ph.4;
            movesplit = refl;
          }

  -- Where tasks were left in the old frame, the owner's split point is put back as well.
  pub frame_restores_split :
      (b : Bool) (c : Command)
      → final.pc ≡ uncovered
      → entry.w.allstolen ≡ false
      → (frame_step final (owner b c)).sys.w.split ≡ entry.w.split
  frame_restores_split b c at open_frame =
      ground (arith, (frame_restores b c at).split, deque.shape)

  -- Where all tasks of the old frame were stolen and its public split point lies below the last of
  -- them, which `lace_shrink_shared` leaves behind when thieves take everything while it moves the
  -- split point down, the frame lowers the owner's split point to the public one: then `SYNC` of
  -- that task, with `movesplit` not set, takes the fast path and executes it although it was stolen.
  pub frame_forgets_stolen :
      (b : Bool) (c : Command)
      → final.pc ≡ uncovered
      → entry.w.allstolen ≡ true
      → entry.wt.ts.split < entry.head
      → base entry.pins < entry.head
      → final.sys.wt.movesplit ≡ false
      → ((own sync_next (own sync_next (frame_step final (owner b c)).sys)).at ≡ taking)
        × ((own sync_next (own sync_next (frame_step final (owner b c)).sys)).head
            < (own sync_next (own sync_next (frame_step final (owner b c)).sys)).wt.ts.tail)
  frame_forgets_stolen b c at all low more quiet =
      let r = frame_restores b c at in
      let (taken, down, kept) =
        pop_fast_lem (frame_step final (owner b c)).sys r.at
          (subst (λ l. base l < (frame_step final (owner b c)).sys.head) (sym r.pins)
            (omega (arith, more, r.head)))
          (omega (arith, low, r.head, r.split)) (r.movesplit ∙ quiet) in
      (taken, ground (arith, down, kept, r.head, r.pair, r.cut_tail, deque.shape, more))
