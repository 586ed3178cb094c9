-- ===== src/Deque/Frame.antt =====
-- src/lace.c, `lace_exec_in_new_frame` on one worker's deque: the owner puts the deque aside, runs
-- a task in a new frame that begins at its head, and puts the old frame back, while thieves go on.
mod Invariant
mod Phases
pub mod Restore
mod Tests
use lace.Prelude.{ℕ, ◌+◌, Bool, true, false, ◌&&◌, ◌==◌, if◌then◌else◌, List, [], ◌∷◌, foldl, u32}
use lace.Deque.State.{
  TailSplit, Worker, WorkerP, OwnerPc, ready, overflow, spawning, reopening, reopened, grown,
  popping, slow, shrinking, shrunk, mending, all_gone, regrow, regrown, taking, leaping, spinning,
  landed, clearing, Command, spawn, share, System,
}
use lace.Deque.Owner.{own}
use lace.Deque.Steal.{steal}

-- Where the owner stands in `lace_exec_in_new_frame`.
pub data FramePc : Type 0 where
  entered : FramePc
  hidden : FramePc  -- `allstolen` is set
  closed : FramePc  -- the split point is 0
  measured : FramePc  -- the tail was read
  inside : FramePc  -- between the barriers, in `root->f`
  uncovered : FramePc  -- `allstolen` is put back
  left : FramePc

pub record Frame : Type 0 where
  pub sys : System
  pub pc : FramePc
  pub bottom : ℕ  -- __lace_dq_head
  pub old_as : Bool
  pub old : TailSplit
  pub outer : List ℕ  -- the stolen tasks that the frames below wait for
  pub cut : TailSplit  -- the pair where the split point was set to 0, not in the program

abbrev pub enter : System → Frame
enter s = record {
  sys = s;
  pc = entered;
  bottom = s.head;
  old_as = false;
  old = record { tail = 0; split = 0 };
  outer = s.pins;
  cut = record { tail = 0; split = 0 };
}

-- The root task: any operations of the owner, those on its own tasks above the bottom of the frame.
-- It ends where it began.
unfoldable pub root_step : (bottom : ℕ) → Command → OwnerPc → System → System
unfolding own
root_step bottom spawn ready s = own spawn s
root_step bottom share ready s = own share s
root_step bottom c ready s = if s.head == bottom then s else own c s
root_step bottom c _ s = own c s

abbrev pub is_ready : OwnerPc → Bool
is_ready ready = true
is_ready _ = false

-- The next access of the owner; `goes_on` is whether the root task has more to do.
unfoldable pub frame_at : (goes_on : Bool) → Command → FramePc → Frame → Frame
unfolding root_step
frame_at b c entered m = record m {
  old_as = m.sys.wt.allstolen;
  sys = record (m.sys) { wt = record (m.sys.wt) { allstolen = true } };
  pc = hidden;
}
frame_at b c hidden m = record m {
  old = record (m.old) { split = m.sys.wt.ts.split };
  cut = m.sys.wt.ts;
  sys = record (m.sys) { wt = record (m.sys.wt) { ts = record (m.sys.wt.ts) { split = 0 } } };
  pc = closed;
}
frame_at b c closed m = record m { old = record (m.old) { tail = m.sys.wt.ts.tail }; pc = measured }
frame_at b c measured m = record m {
  sys = record (m.sys) {
    wt = record (m.sys.wt) { ts = record { tail = u32 m.bottom; split = u32 m.bottom } };
    w = record (m.sys.w) { split = m.bottom; allstolen = true };
    pins = [];
  };
  pc = inside;
}
frame_at b c inside m =
    if b
    then record m { sys = root_step m.bottom c m.sys.at m.sys }
    else if is_ready m.sys.at && m.sys.head == m.bottom
    then record m {
      sys = record (m.sys) { wt = record (m.sys.wt) { allstolen = m.old_as } };
      pc = uncovered;
    }
    else m
frame_at b c uncovered m = record m {
  sys = record (m.sys) {
    wt = record (m.sys.wt) { ts = m.old };
    w = record (m.sys.w) { split = m.old.split; allstolen = m.old_as };
    pins = m.outer;
  };
  pc = left;
}
frame_at b c left m = m

pub data FrameMove : Type 0 where
  owner : (goes_on : Bool) → Command → FrameMove
  thief : (luck : Bool) (k : ℕ) → FrameMove

unfoldable pub frame_step : Frame → FrameMove → Frame
unfolding frame_at steal
frame_step m (FrameMove.owner b c) = frame_at b c m.pc m
frame_step m (FrameMove.thief luck k) = record m { sys = steal luck k m.sys }

unfoldable pub run_frame : List FrameMove → Frame → Frame
unfolding frame_step
run_frame l m = foldl frame_step m l
