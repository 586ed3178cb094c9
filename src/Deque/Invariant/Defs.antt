-- ===== src/Deque/Invariant/Defs.antt =====
-- What holds of the indices, the flags and the array at each point of the owner's code.
use lace.Prelude.{ℕ, ◌+◌, ◌^◌, ◌≤◌, ◌<◌, ◌≡◌, Bool, true, false, List, [], ◌∷◌}
use lace.Deque.State.{
  Thief, task, completed, OwnerPc, ready, overflow, spawning, unasking, growing, regrowing,
  reopening, reopened, grown, shrinking, shrunk, mending, all_gone, regrow, regrown, taking,
  leaping, spinning, landed, clearing, popping, slow, System, TailSplit, ThiefPc, loaded,
}
use lace.Deque.Owner.{base}
use lace.Deque.Slots.{Slots}

-- The first index that is not in use. A popped task's slot is in use until the pop is decided.
abbrev pub bound : OwnerPc → ℕ → ℕ
bound ready head = head
bound overflow head = head
bound spawning head = head
bound unasking head = head
bound reopening head = head
bound growing head = head
bound _ head = head + 1

-- With `allstolen` every slot below `top` is stolen and none is shared; the owner's copy of the
-- split point stays high, so that the fast path of `SYNC` is not taken. Without it the slots from
-- the tail to the split point are shared, and both copies of the split point agree.
abbrev pub Level : Bool → (tail split own_split top : ℕ) → Type 0
Level true tail split own_split top = (top ≤ tail) × (split ≤ tail) × (top ≤ own_split)
Level false tail split own_split top = (tail ≤ split) × (split ≡ own_split) × (own_split ≤ top)

-- The owner may use its own slots from `top` down.
abbrev pub Open : Bool → (tail split own_split top : ℕ) → Type 0
Open a tail split own_split top = (a ≡ false) × Level false tail split own_split top

abbrev pub Shape : OwnerPc → Bool → (tail split own_split head end : ℕ) → Type 0
Shape ready a t s w h e = Level a t s w h × (h ≤ e)
Shape overflow a t s w h e = Level a t s w h × (h ≤ e)
Shape spawning a t s w h e = Level a t s w h × (h < e)
Shape unasking a t s w h e = (a ≡ true) × Level true t s w h × (h < e)
Shape reopening a t s w h e = (a ≡ true) × Level true t s w h × (h < e)
Shape reopened a t s w h e = (a ≡ true) × (h ≤ t) × (t ≤ h + 1) × (s ≡ h + 1) × (h < e)
Shape growing a t s w h e = Open a t s w h × (h < e)
Shape grown a t s w h e = Open a t s w (h + 1) × (h < e)
Shape (popping k) a t s w h e = Level a t s w (h + 1) × (h < e)
Shape (slow k) a t s w h e = Level a t s w (h + 1) × (h < e)
Shape (shrinking k ts) a t s w h e =
    Open a t s w (h + 1) × (s ≡ h + 1) × (ts.split ≡ s) × (ts.tail < s) × (h < e)
Shape (shrunk k n old) a t s w h e =
    (a ≡ false) × (s ≡ n) × (n < old) × (old ≡ h + 1) × (w ≡ old) × (t ≤ old) × (h < e)
Shape (mending k n) a t s w h e = (a ≡ false) × (s < t) × (t ≤ n) × (n ≤ h) × (h < e)
Shape all_gone a t s w h e = (t ≡ h + 1) × (s ≤ t) × (w ≡ h + 1) × (h < e)
Shape regrow a t s w h e = Open a t s w h × (h < e)
Shape regrowing a t s w h e = Open a t s w h × (h < e)
Shape regrown a t s w h e = Open a t s w h × (h < e)
Shape taking a t s w h e = Open a t s w h × (h < e)
Shape leaping a t s w h e = (a ≡ true) × Level true t s w (h + 1) × (h < e)
Shape spinning a t s w h e = (a ≡ true) × Level true t s w (h + 1) × (h < e)
Shape landed a t s w h e = (h < t) × Level a t s w (h + 1) × (h < e)
Shape clearing a t s w h e = (a ≡ true) × Level true t s w (h + 1) × (h < e)

-- What the slot at the head holds.
abbrev pub AtHead : OwnerPc → Thief → (f spawned : ℕ) → Type 0
AtHead spawning t f spawned = (t ≡ task) × (f ≡ spawned)
AtHead unasking t f spawned = (t ≡ task) × (f ≡ spawned)
AtHead growing t f spawned = (t ≡ task) × (f ≡ spawned)
AtHead reopening t f spawned = (t ≡ task) × (f ≡ spawned)
AtHead landed t f spawned = t ≡ completed
AtHead clearing t f spawned = t ≡ completed
AtHead _ t f spawned = Unit

-- The stolen tasks that the owner waits for lie below one another.
abbrev pub Chain : List ℕ → Type 0
Chain [] = Unit
Chain (h ∷ r) = (base r ≤ h) × Chain r

-- A thief that has read the pair saw a shared task.
abbrev pub Loads : (ℕ → ThiefPc) → Type 0
Loads pc = (k : ℕ) (ts : TailSplit) → pc k ≡ loaded ts → ts.tail < ts.split

pub record InvAt (p : OwnerPc) (s : System) : Type 0 where
  pub small : s.w.end < 2 ^ 31
  pub shape : Shape p s.w.allstolen s.wt.ts.tail s.wt.ts.split s.w.split s.head s.w.end
  pub agree : s.wt.allstolen ≡ s.w.allstolen
  pub below : (base s.pins ≤ s.wt.ts.tail) × (base s.pins ≤ s.head)
  pub chain : Chain s.pins
  pub at_head : AtHead p (s.thief s.head) (s.f s.head) s.spawned
  pub loads : Loads s.pc
  pub slots : Slots s.wt.ts.tail (bound p s.head) s.thief s.f s.pc s.spawned s.runs s.dropped

abbrev pub Inv : System → Type 0
Inv s = InvAt s.at s
