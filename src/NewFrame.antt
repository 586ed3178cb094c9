-- ===== src/NewFrame.antt =====
-- src/lace.c, `lace_run_newframe` and `lace_run_together` with `lace_yield`: how all workers come
-- into one frame and out of it. A step is one access to shared memory.
pub mod Invariant
pub mod Opening
pub mod Steps
pub mod Ending
pub mod Moving
pub mod Safety
mod Tests
use lace.Prelude.{
  ℕ, zero, suc, ◌+◌, ◌-◌, ◌^◌, Bool, true, false, not, ◌&&◌, ◌||◌, Option, none, some, ◌==◌,
  if◌then◌else◌, u32, update,
}

pub data Kind : Type 0 where
  newframe : Kind  -- lace_wrap_newframe
  together : Kind  -- lace_wrap_together

-- The task that `lace_newframe.t` points to, in a local variable of its leader, who is `level`
-- frames deep.
pub record Task : Type 0 where
  pub leader : ℕ
  pub level : ℕ
  pub kind : Kind

-- Where a worker stands. `back` is what it goes on with after `lace_yield`: `some k` in the loop of
-- the compare-exchange.
pub data Pc : Type 0 where
  running : Pc  -- in a task, or looking for one
  starting : Kind → Pc  -- before the compare-exchange
  yielding : (back : Option Kind) → Pc  -- before `memcpy`
  crashed : Pc  -- `memcpy` from NULL
  copied : Task → (back : Option Kind) → Pc  -- before the barrier of `lace_yield`
  copy_waits : Task → (back : Option Kind) → Pc  -- in it
  claimed : Task → Pc  -- before the leader's barrier
  claim_waits : Task → Pc  -- in it
  resetting : Task → Pc  -- before the leader stores NULL
  entering : Task → (back : Option Kind) → Pc  -- before the first barrier of the frame
  enter_waits : Task → (back : Option Kind) → Pc  -- in it
  ended : Pc  -- before the second one
  end_waits : Pc  -- in it

pub record Session : Type 0 where
  pub newframe : Option Task  -- lace_newframe.t
  pub sync : (leader level : ℕ) → ℕ  -- `done`, of lace_wrap_newframe or lace_wrap_together
  pub pc : ℕ → Pc
  pub level : ℕ → ℕ  -- how many frames deep a worker is
  pub frame : (level worker : ℕ) → Task  -- its copy of the root task
  pub back : (level worker : ℕ) → Option Kind
  pub part : (level worker : ℕ) → Bool  -- whether it still runs `t->f` of the root task

abbrev pub just_started : Session
just_started = record {
  newframe = none;
  sync = λ _ _. 0;
  pc = λ _. running;
  level = λ _. 0;
  frame = λ _ _. record { leader = 0; level = 0; kind = Kind.newframe };
  back = λ _ _. none;
  part = λ _ _. false;
}

-- What the synchronization integer begins with.
abbrev pub first : (n_workers : ℕ) → Kind → ℕ
first n Kind.newframe = 0
first n together = n

-- After one more `t->f` ended, as in lace_newframe_root and lace_together_root.
abbrev pub after : Kind → ℕ → ℕ
after Kind.newframe v = 1
after together v = u32 (v + 2 ^ 32 - 1)

-- The other workers' test, to leave `lace_steal_loop` or the loop of lace_together_root.
abbrev pub is_over : Kind → ℕ → Bool
is_over Kind.newframe v = not (v == 0)
is_over together v = v == 0

-- Who runs `t->f`: for NEWFRAME the leader, the others run `lace_steal_loop`.
abbrev pub has_part : Kind → (leader worker : ℕ) → Bool
has_part Kind.newframe l i = l == i
has_part together l i = true

abbrev pub resume : Option Kind → Pc
resume none = running
resume (some k) = starting k

-- A worker that `lace_barrier` lets pass.
abbrev pub past : (back : Option Kind) → Pc → Pc
past _ (copy_waits t b) = entering t b
past _ (claim_waits t) = resetting t
past _ (enter_waits t b) = running
past b end_waits = resume b
past _ p = p

abbrev pub is_waiting : Pc → Bool
is_waiting (copy_waits _ _) = true
is_waiting (claim_waits _) = true
is_waiting (enter_waits _ _) = true
is_waiting end_waits = true
is_waiting _ = false

abbrev pub is_running : Pc → Bool
is_running running = true
is_running _ = false

unfoldable pub all : (Pc → Bool) → (ℕ → Pc) → (n : ℕ) → Bool
all test pc zero = true
all test pc (suc n) = all test pc n && test (pc n)

abbrev pub push {ℓ} : {A : Type ℓ} → (Task → Option Kind → A) → (k level : ℕ) → Pc → A → A
push f k level (enter_waits t b) a = if k == level then f t b else a
push f k level _ a = a

abbrev pub new_level : Pc → ℕ → ℕ
new_level (enter_waits _ _) l = l + 1
new_level end_waits l = l - 1
new_level _ l = l

-- `lace_barrier` opens: all workers pass it, each to what comes after its own call of it.
unfoldable pub open_barrier : Session → Session
open_barrier s = record s {
  pc = λ i. past (s.back (s.level i - 1) i) (s.pc i);
  level = λ i. new_level (s.pc i) (s.level i);
  frame = λ k i. push (λ t _. t) k (s.level i) (s.pc i) (s.frame k i);
  back = λ k i. push (λ _ b. b) k (s.level i) (s.pc i) (s.back k i);
  part = λ k i. push (λ t _. has_part t.kind t.leader i) k (s.level i) (s.pc i) (s.part k i);
}

unfoldable pub move : ℕ → Pc → Session → Session
move i p s = record s { pc = update s.pc i p }

-- A worker calls `lace_barrier`, which opens when all `n` are in it.
unfoldable pub arrive : (n i : ℕ) → Pc → Session → Session
unfolding all open_barrier move
arrive n i p s = if all is_waiting (move i p s).pc n then open_barrier (move i p s) else move i p s

-- What a running worker may do next.
pub data Action : Type 0 where
  start : Kind → Action  -- a task of its calls NEWFRAME or TOGETHER
  look : Action  -- YIELD_NEWFRAME
  end_root : Action  -- `t->f` of the root task ends
  leave : Action  -- it tests whether the frame is over

-- Whether the frame `t` is over.
unfoldable pub over : Task → Session → Bool
over t s = is_over t.kind (s.sync t.leader t.level)

-- A task that begins a frame belongs to a root task that has not ended.
unfoldable pub start_frame : (i : ℕ) → Kind → (level : ℕ) → Session → Session
unfolding over move
start_frame i k zero s = move i (starting k) s
start_frame i k (suc l) s = if over (s.frame l i) s then s else move i (starting k) s

-- The leader of NEWFRAME leaves at once.
abbrev pub after_root : Kind → Pc
after_root Kind.newframe = ended
after_root together = running

unfoldable pub end_part : (i l : ℕ) → Task → Session → Session
end_part i l t s = record s {
  sync =
      update s.sync t.leader
        (update (s.sync t.leader) t.level (after t.kind (s.sync t.leader t.level)));
  part = update s.part l (update (s.part l) i false);
  pc = update s.pc i (after_root t.kind);
}

-- The last root task ends when no task of its own is left, so that all workers look for work.
unfoldable pub end_root_at : (n i : ℕ) → (level : ℕ) → Session → Session
unfolding all over end_part
end_root_at n i zero s = s
end_root_at n i (suc l) s =
    if s.part l i
      && (all is_running s.pc n || not (over (s.frame l i) (end_part i l (s.frame l i) s)))
    then end_part i l (s.frame l i) s
    else s

unfoldable pub leave_at : (i : ℕ) → (level : ℕ) → Session → Session
unfolding over move
leave_at i zero s = s
leave_at i (suc l) s = if not (s.part l i) && over (s.frame l i) s then move i ended s else s

-- YIELD_NEWFRAME
unfoldable pub look_at : ℕ → Option Task → Session → Session
unfolding move
look_at i none s = s
look_at i (some _) s = move i (yielding none) s

unfoldable pub act : (n i : ℕ) → Action → Session → Session
unfolding start_frame look_at end_root_at leave_at
act n i (start k) s = start_frame i k (s.level i) s
act n i look s = look_at i s.newframe s
act n i end_root s = end_root_at n i (s.level i) s
act n i leave s = leave_at i (s.level i) s

-- The weak compare-exchange; the leader's synchronization integer is set before.
unfoldable pub claim : (luck : Bool) (n i : ℕ) → Kind → Option Task → Session → Session
unfolding move
claim true n i k none s =
    let t : Task = record { leader = i; level = s.level i; kind = k } in
    record s {
      newframe = some t;
      sync = update s.sync i (update (s.sync i) (s.level i) (first n k));
      pc = update s.pc i (claimed t);
    }
claim luck n i k _ s = move i (yielding (some k)) s

-- `memcpy` in `lace_yield`
unfoldable pub copy : (i : ℕ) → Option Kind → Option Task → Session → Session
unfolding move
copy i b none s = move i crashed s
copy i b (some t) s = move i (copied t b) s

-- The next access of worker `i` of `n`.
unfoldable pub worker_at : (luck : Bool) (n i : ℕ) → Action → Pc → Session → Session
unfolding act claim copy move arrive
worker_at luck n i a running s = act n i a s
worker_at luck n i a (starting k) s = claim luck n i k s.newframe s
worker_at luck n i a (yielding b) s = copy i b s.newframe s
worker_at luck n i a (copied t b) s = arrive n i (copy_waits t b) s
worker_at luck n i a (claimed t) s = arrive n i (claim_waits t) s
worker_at luck n i a (resetting t) s = record s {
  newframe = none;
  pc = update s.pc i (entering t none);
}
worker_at luck n i a (entering t b) s = arrive n i (enter_waits t b) s
worker_at luck n i a ended s = arrive n i end_waits s
worker_at luck n i a _ s = s

-- Worker `who` makes its next access; a weak compare-exchange fails without `luck`.
pub record Turn : Type 0 where
  pub who : ℕ
  pub luck : Bool
  pub action : Action

unfoldable pub step : (n_workers : ℕ) → Session → Turn → Session
unfolding worker_at
step n s m = worker_at m.luck n m.who m.action (s.pc m.who) s
