-- ===== src/Deque/GetHead.antt =====
-- src/lace.c, `lace_get_head` on a deque that the owner and its thieves work on: without `DROP` the
-- slots in use are those below the owner's head, and the search finds it.
use lace.Prelude.{
  ℕ, ◌+◌, ◌≤◌, ◌<◌, ◌≡◌, ◌∙◌, refl, sym, subst, inl, inr, List, [], ◌∷◌, Bool, true, false, arith,
}
use native.Mathlib.Decide.{dec_lt}
use lace.Deque.State.{
  System, Thief, empty, ThiefPc, rest, won, running, OwnerPc, ready, overflow, popping, slow,
  shrunk, mending, Command, spawn, sync_next, drop_next, land, share, sync, drop,
}
use lace.Deque.Owner.{owner_at, own, land_on}
use lace.Deque.Steal.{steal_at, steal}
use lace.Deque.Interleaving.{Move, step, run}
use lace.Deque.Invariant.{Inv, InvAt, bound, step-Inv}
use lace.Head.{is_empty}

-- The first index that no store has touched since it was cleared.
abbrev pub top : OwnerPc → ℕ → ℕ
top ready head = head
top overflow head = head
top _ head = head + 1

-- Without drops the slots from there on are empty.
abbrev pub Clean : System → Type 0
Clean s = ((n : ℕ) → s.dropped n ≡ false) → (i : ℕ) → top s.at s.head ≤ i → s.thief i ≡ empty

bound-le-top : (p : OwnerPc) (h : ℕ) → bound p h ≤ top p h
bound-le-top ready h = omega arith
bound-le-top _ h = omega arith

pub is_empty-eq : (t : Thief) → t ≡ empty → is_empty t ≡ true
unfolding is_empty
is_empty-eq t e = rw e

-- A dropped spawn stays dropped.
land_on-dropped : (l : List ℕ) (s : System) (n : ℕ) → (land_on l s).dropped n ≡ s.dropped n
unfolding land_on
land_on-dropped [] s n = refl
land_on-dropped (h ∷ r) s n = ground arith

owner_at-dropped :
    (c : Command) (p : OwnerPc) (s : System) (n : ℕ)
    → (owner_at c p s).dropped n ≡ false
    → s.dropped n ≡ false
unfolding owner_at
owner_at-dropped spawn ready s n e = ground arith
owner_at-dropped sync_next ready s n e = ground arith
owner_at-dropped drop_next ready s n e = ground arith
owner_at-dropped land ready s n e = sym (land_on-dropped s.pins s n) ∙ e
owner_at-dropped share ready s n e = ground arith
owner_at-dropped c (popping sync) s n e = ground arith
owner_at-dropped c (popping drop) s n e = ground arith
owner_at-dropped c (slow sync) s n e = ground arith
owner_at-dropped c (slow drop) s n e = ground arith
owner_at-dropped c (shrunk sync m old) s n e = ground arith
owner_at-dropped c (shrunk drop m old) s n e = ground arith
owner_at-dropped c (mending sync m) s n e = ground arith
owner_at-dropped c (mending drop m) s n e = ground arith
owner_at-dropped c _ s n e = ground arith

land_on-Clean :
    (l : List ℕ) (s : System)
    → s.at ≡ ready
    → ((i : ℕ) → top ready s.head ≤ i → s.thief i ≡ empty)
    → (i : ℕ) → top (land_on l s).at (land_on l s).head ≤ i
    → (land_on l s).thief i ≡ empty
unfolding land_on
land_on-Clean [] s here clean i q = clean i (subst (λ p. top p s.head ≤ i) here q)
land_on-Clean (h ∷ r) s here clean i q = ground (arith, clean i)

owner_at-Clean :
    (c : Command) (p : OwnerPc) (s : System)
    → s.at ≡ p
    → ((i : ℕ) → top p s.head ≤ i → s.thief i ≡ empty)
    → (owner_at c p s).dropped (s.f s.head) ≡ false
    → (i : ℕ) → top (owner_at c p s).at (owner_at c p s).head ≤ i
    → (owner_at c p s).thief i ≡ empty
unfolding owner_at
owner_at-Clean spawn ready s here clean nd i q = ground (arith, clean i)
owner_at-Clean sync_next ready s here clean nd i q = ground (arith, clean i)
owner_at-Clean drop_next ready s here clean nd i q = ground (arith, clean i)
owner_at-Clean land ready s here clean nd i q = land_on-Clean s.pins s here clean i q
owner_at-Clean share ready s here clean nd i q = ground (arith, clean i)
owner_at-Clean c (popping sync) s here clean nd i q = ground (arith, clean i)
owner_at-Clean c (popping drop) s here clean nd i q = ground (arith, clean i)
owner_at-Clean c (slow sync) s here clean nd i q = ground (arith, clean i)
owner_at-Clean c (slow drop) s here clean nd i q = ground (arith, clean i)
owner_at-Clean c (shrunk sync n old) s here clean nd i q = ground (arith, clean i)
owner_at-Clean c (shrunk drop n old) s here clean nd i q = ground (arith, clean i)
owner_at-Clean c (mending sync n) s here clean nd i q = ground (arith, clean i)
owner_at-Clean c (mending drop n) s here clean nd i q = ground (arith, clean i)
owner_at-Clean c _ s here clean nd i q = ground (arith, clean i)

-- A thief stores only to slots in use.
steal_at-Clean :
    (luck : Bool) (k : ℕ) (p : ThiefPc) (s : System)
    → s.pc k ≡ p
    → Inv s
    → ((i : ℕ) → top s.at s.head ≤ i → s.thief i ≡ empty)
    → (i : ℕ) → top (steal_at luck k p s).at (steal_at luck k p s).head ≤ i
    → (steal_at luck k p s).thief i ≡ empty
unfolding steal_at
steal_at-Clean luck k (won h) s here inv clean i q =
    ground (arith, clean i, inv.slots.held k h, bound-le-top s.at s.head)
steal_at-Clean luck k (running h) s here inv clean i q =
    ground (arith, clean i, inv.slots.held k h, bound-le-top s.at s.head)
steal_at-Clean luck k _ s here inv clean i q = ground (arith, clean i)

steal_at-dropped :
    (luck : Bool) (k : ℕ) (p : ThiefPc) (s : System) (n : ℕ)
    → (steal_at luck k p s).dropped n ≡ s.dropped n
unfolding steal_at
steal_at-dropped luck k (rest r) s n = ground arith
steal_at-dropped luck k _ s n = ground arith

step-Clean : (m : Move) (s : System) → Inv s → Clean s → Clean (step s m)
unfolding step own steal
step-Clean (Move.owner c) s inv clean nd =
    owner_at-Clean c s.at s refl (clean (λ n. owner_at-dropped c s.at s n (nd n))) (nd (s.f s.head))
step-Clean (Move.thief luck k) s inv clean nd =
    steal_at-Clean luck k (s.pc k) s refl inv
      (clean (λ n. sym (steal_at-dropped luck k (s.pc k) s n) ∙ nd n))

pub run_from-Clean : (l : List Move) (s : System) → Inv s → Clean s → Clean (run l s)
unfolding run
run_from-Clean [] s inv clean = clean
run_from-Clean (m ∷ l) s inv clean =
    run_from-Clean l (step s m) (step-Inv m inv) (step-Clean m s inv clean)

-- A slot in use is not empty.
pub used-not-empty :
    {p : OwnerPc} {s : System}
    → InvAt p s
    → (i : ℕ) → i < bound p s.head
    → is_empty (s.thief i) ≡ false
unfolding is_empty
used-not-empty {p} {s} inv i low = elim (dec_lt i s.wt.ts.tail) [
  | no shared ↦ ground (arith, inv.slots.waiting i)
  | yes stolen ↦ elim (inv.slots.covered i stolen low) [
    | inl fact ↦ ground (arith, fact)
    | inr (j, c) ↦ ground (arith, inv.slots.held j i c)
  ]
]
