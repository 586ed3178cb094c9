-- ===== src/NewFrame/Invariant.antt =====
-- The invariant of frames: which phase all workers are in, and what each of them may be doing then.
use lace.Prelude.{
  ℕ, zero, suc, ◌+◌, ◌-◌, ◌^◌, ◌<◌, ◌≡◌, ◌≢◌, refl, Bool, true, false, Option, none, some, arith,
  total, total-const, total-change, sym, ap, ◌==◌,
}
use native.Mathlib.Decide.{ℕ_discrete}
use lace.NewFrame.{
  Kind, together, Task, Pc, running, starting, yielding, copied, copy_waits, claimed, claim_waits,
  resetting, entering, enter_waits, ended, end_waits, Session, first, is_over, after, has_part, all,
  just_started,
}

-- What the workers do together.
pub data Phase : Type 0 where
  quiet : Phase
  gather : Task → Phase  -- up to the barrier where all have the task
  reset : Task → Phase  -- the leader has not stored NULL
  between : Task → Phase  -- up to the first barrier of the frame
  closing : Phase  -- up to the second

abbrev pub Allowed : Phase → ℕ → Pc → Type 0
Allowed quiet i running = Unit
Allowed quiet i (starting _) = Unit
Allowed (gather t) i running = i ≢ t.leader
Allowed (gather t) i (starting _) = i ≢ t.leader
Allowed (gather t) i (yielding _) = i ≢ t.leader
Allowed (gather t) i (copied u _) = (u ≡ t) × (i ≢ t.leader)
Allowed (gather t) i (copy_waits u _) = (u ≡ t) × (i ≢ t.leader)
Allowed (gather t) i (claimed u) = (u ≡ t) × (i ≡ t.leader)
Allowed (gather t) i (claim_waits u) = (u ≡ t) × (i ≡ t.leader)
Allowed (reset t) i (resetting u) = (u ≡ t) × (i ≡ t.leader)
Allowed (reset t) i (entering u _) = (u ≡ t) × (i ≢ t.leader)
Allowed (reset t) i (enter_waits u _) = (u ≡ t) × (i ≢ t.leader)
Allowed (between t) i (entering u _) = u ≡ t
Allowed (between t) i (enter_waits u _) = u ≡ t
Allowed closing i running = Unit
Allowed closing i ended = Unit
Allowed closing i end_waits = Unit
Allowed _ i _ = ⊥

-- `lace_newframe.t`
abbrev pub pointer : Phase → Option Task
pointer (gather t) = some t
pointer (reset t) = some t
pointer _ = none

-- How many workers have yet to end their part of the root task.
abbrev pub left_of : Kind → ℕ → ℕ
left_of Kind.newframe zero = 1
left_of Kind.newframe (suc _) = 0
left_of together v = v

abbrev pub left : Task → (ℕ → ℕ → ℕ) → ℕ
left t sync = left_of t.kind (sync t.leader t.level)

abbrev pub bit : Bool → ℕ
bit true = 1
bit false = 0

abbrev pub Fresh : (n d : ℕ) → (ℕ → ℕ → ℕ) → Task → Type 0
Fresh n d sync t = (t.level ≡ d) × (t.leader < n) × (sync t.leader t.level ≡ first n t.kind)

abbrev pub Ready : Phase → (n d : ℕ) → (ℕ → ℕ → ℕ) → (ℕ → Task) → Type 0
Ready quiet n d sync f = Unit
Ready (gather t) n d sync f = Fresh n d sync t
Ready (reset t) n d sync f = Fresh n d sync t
Ready (between t) n d sync f = Fresh n d sync t
Ready closing n d sync f = (0 < d) × (left (f (d - 1)) sync ≡ 0)

-- How many frames are not over.
abbrev pub live : Phase → ℕ → ℕ
live closing d = d - 1
live _ d = d

-- All workers are `d` frames deep, in the frames `f`.
pub record Inv (n : ℕ) (s : Session) (ph : Phase) (d : ℕ) (f : ℕ → Task) : Type 0 where
  pub small : n < 2 ^ 32
  pub newframe : s.newframe ≡ pointer ph
  pub ready : Ready ph n d s.sync f
  pub allowed : (i : ℕ) → i < n → Allowed ph i (s.pc i)
  pub level : (i : ℕ) → i < n → s.level i ≡ d
  pub frame : (k i : ℕ) → k < d → i < n → s.frame k i ≡ f k
  pub lead : (k : ℕ) → k < d → (f k).level ≡ k
  pub parts : (k : ℕ) → k < d → total (λ i. bit (s.part k i)) n ≡ left (f k) s.sync
  pub alive : (k : ℕ) → k < live ph d → 0 < left (f k) s.sync

pub record Sound (n : ℕ) (s : Session) : Type 0 where
  pub ph : Phase
  pub d : ℕ
  pub f : ℕ → Task
  pub inv : Inv n s ph d f

pub just_started-Inv : (n : ℕ) → n < 2 ^ 32 → Inv n just_started quiet 0 (just_started.frame 0)
just_started-Inv n small = record {
  small = small;
  newframe = refl;
  ready = tt;
  allowed = λ _ _. tt;
  level = λ _ _. refl;
  frame = λ k i p _. absurd (omega arith);
  lead = λ k p. absurd (omega arith);
  parts = λ k p. absurd (omega arith);
  alive = λ k p. absurd (omega arith);
}

pub left-is_over : (k : Kind) (v : ℕ) → left_of k v ≡ 0 → is_over k v ≡ true
left-is_over Kind.newframe zero p = absurd (omega arith)
left-is_over Kind.newframe (suc v) p = ground arith
left-is_over together v p = ground arith

pub left-live : (k : Kind) (v : ℕ) → 0 < left_of k v → is_over k v ≡ false
left-live Kind.newframe zero p = refl
left-live Kind.newframe (suc v) p = absurd (omega arith)
left-live together v p = ground arith

pub is_over-left : (k : Kind) (v : ℕ) → is_over k v ≡ false → 0 < left_of k v
is_over-left Kind.newframe zero p = omega arith
is_over-left Kind.newframe (suc v) p = absurd (ground (arith, p))
is_over-left together v p = ground arith

pub is_over-none_left : (k : Kind) (v : ℕ) → is_over k v ≡ true → left_of k v ≡ 0
is_over-none_left Kind.newframe zero p = absurd (ground (arith, p))
is_over-none_left Kind.newframe (suc v) p = refl
is_over-none_left together v p = ground arith

-- One part less.
pub left-after :
    (k : Kind) (v : ℕ)
    → 0 < left_of k v
    → left_of k v < 2 ^ 32
    → left_of k (after k v) + 1 ≡ left_of k v
left-after Kind.newframe zero p q = refl
left-after Kind.newframe (suc v) p q = absurd (omega arith)
left-after together v p q = ground arith

pub all-at :
    (test : Pc → Bool) (pc : ℕ → Pc) (n : ℕ)
    → all test pc n ≡ true
    → (i : ℕ) → i < n
    → test (pc i) ≡ true
unfolding all
all-at test pc zero p i q = absurd (omega arith)
all-at test pc (suc n) p i q = elim (ℕ_discrete i n) [
  | yes last ↦ ground (arith, ap pc last)
  | no earlier ↦ ground (arith, all-at test pc n (ground arith) i (omega arith))
]

one-total : (g : ℕ → ℕ) (n l : ℕ) → l < n → g l ≡ 1 → ((i : ℕ) → i ≢ l → g i ≡ 0) → total g n ≡ 1
one-total g n l p one others = omega (
  arith,
  total-change (λ _. 0) g n l p (λ j q. sym (others j q)),
  total-const (λ _. 0) 0 n (λ _ _. refl) (omega arith),
  one,
)

-- At first every part is to do.
pub parts-first :
    (n l : ℕ) (k : Kind) → l < n → total (λ i. bit (has_part k l i)) n ≡ left_of k (first n k)
parts-first n l Kind.newframe p =
    one-total (λ i. bit (l == i)) n l p (ground arith) (λ i q. ground (arith, q))
parts-first n l together p = total-const (λ _. 1) 1 n (λ _ _. refl) (omega arith)

pub first-left : (n l : ℕ) (k : Kind) → l < n → 0 < left_of k (first n k)
first-left n l Kind.newframe p = omega arith
first-left n l together p = omega arith
