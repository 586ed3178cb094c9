-- ===== src/Deque/Value/Good.antt =====
-- The invariant of the unions: the arguments until the task is done, then its result.
use lace.Prelude.{
  ℕ, ◌<◌, ◌≡◌, refl, sym, subst, ap, ◌∙◌, Bool, true, false, Option, some, arith, ◌==◌,
  if◌then◌else◌, update,
}
use native.Mathlib.Decide.{ℕ_discrete}
use lace.Deque.State.{
  Thief, empty, task, worker, completed, ready, overflow, spawning, ThiefPc, won, running, System,
}
use lace.Deque.Owner
use lace.Deque.Owner.{own, owner_at, command, spawn_task}
use lace.Deque.Steal.{steal_at}
use lace.Deque.Slots.{claim, Agree}
use lace.Deque.Invariant.{Inv}
use lace.Deque.Value.{Union, args, res, Machine, wrap, thief_writes}
use lace.Deque.Value.Frame.{top, Keeps, steal_at-Keeps}

module _ {A R : Type 0} (work : A → R) where
  -- What a slot holds: the arguments until the task is done, then the result.
  abbrev pub Fits : Thief → Union A R → Option A → Type 0
  Fits empty d g = Unit
  Fits task d g = (a : A) × (d ≡ args a) × (g ≡ some a)
  Fits (worker _) d g = (a : A) × (d ≡ args a) × (g ≡ some a)
  Fits completed d g = (a : A) × (d ≡ res (work a)) × (g ≡ some a)

  pub record Good (m : Machine A R) : Type 0 where
    pub deque : Inv m.sys
    pub fits :
        (i : ℕ) → i < top m.sys.at m.sys.head → Fits (m.sys.thief i) (m.d i) (m.given (m.sys.f i))
    pub past : (n : ℕ) (v : R) → m.returned n ≡ some v → n < m.sys.spawned
    pub right :
        (n : ℕ) (v : R) → m.returned n ≡ some v → (a : A) × (m.given n ≡ some a) × (v ≡ work a)

  Fits-eq :
      {t t' : Thief} {d d' : Union A R} {g g' : Option A}
      → t ≡ t'
      → d ≡ d'
      → g ≡ g'
      → Fits t d g
      → Fits t' d' g'
  Fits-eq {t' = t'} {d = d} {d' = d'} {g = g} {g' = g'} e k h fit =
      subst (Fits t' d') h (subst (λ x. Fits t' x g) k (subst (λ x. Fits x d g) e fit))

  -- An access that writes no union.
  pub quiet-Good :
      (m : Machine A R) (t : System) → Good m → Inv t → Keeps m.sys t → Good (record m { sys = t })
  quiet-Good m t good inv keeps = record {
    deque = inv;
    fits = λ i p.
        subst (λ f. Fits (t.thief i) (m.d i) (m.given f)) (sym (keeps.same_f i))
          (subst (λ h. Fits h (m.d i) (m.given (m.sys.f i))) (sym (keeps.same_thief i p))
            (good.fits i (omega (arith, keeps.lower))));
    past = λ n v e. omega (arith, good.past n v e, keeps.more);
    right = good.right;
  }

  -- `SPAWN` writes the arguments.
  pub write-Good :
      (m : Machine A R) (a : A)
      → Good m
      → Inv (spawn_task m.sys)
      → m.sys.at ≡ ready
      → (m.sys.head == m.sys.w.end) ≡ false
      → Good (record m {
        sys = spawn_task m.sys;
        d = update m.d m.sys.head (Union.args a);
        given = update m.given m.sys.spawned (some a);
      })
  unfolding spawn_task
  write-Good m a good inv at room = by_room (m.sys.head == m.sys.w.end) room inv
    where
      written : System
      written = record (m.sys) {
        f = update m.sys.f m.sys.head m.sys.spawned;
        thief = update m.sys.thief m.sys.head Thief.task;
        at = spawning;
      }

      after : System → Machine A R
      after t = record m {
        sys = t;
        d = update m.d m.sys.head (Union.args a);
        given = update m.given m.sys.spawned (some a);
      }

      earlier : (i : ℕ) → i < m.sys.head → m.sys.f i < m.sys.spawned
      earlier i p = good.deque.slots.dated i (ground (arith, at))

      keeps_good : Inv written → Good (after written)
      keeps_good i = record {
        deque = i;
        fits = λ i p. elim (ℕ_discrete m.sys.head i) [
          | yes e ↦
              Fits-eq {t = task} {d = args a} {g = some a} (ground arith) (ground arith)
                (ground arith) (a, refl, refl)
          | no ne ↦
              Fits-eq {t = m.sys.thief i} {d = m.d i} {g = m.given (m.sys.f i)} (ground arith)
                (ground arith) (ground (arith, earlier i)) (good.fits i (ground arith))
        ];
        past = good.past;
        right =
            λ n v e. let (b, g, w) = good.right n v e in (b, ground (arith, good.past n v e), w);
      }

      by_room :
          (b : Bool)
          → b ≡ false
          → Inv (if b then Owner.goto overflow m.sys else written)
          → Good (after (if b then Owner.goto overflow m.sys else written))
      by_room true e i = absurd (ground (arith, e))
      by_room false e i = keeps_good i

  pub held_by :
      (m : Machine A R) (k i : ℕ) (p : ThiefPc)
      → Good m
      → m.sys.pc k ≡ p
      → claim p ≡ some i
      → Agree p k (m.sys.thief i) (m.sys.runs (m.sys.f i))
  held_by m k i p good at e =
      subst (λ q. Agree q k (m.sys.thief i) (m.sys.runs (m.sys.f i))) at
        (good.deque.slots.held k i (ap claim at ∙ e)).2

  -- A thief stores itself in the task.
  won-Good :
      (m : Machine A R) (luck : Bool) (k i : ℕ)
      → Good m
      → Inv (steal_at luck k (won i) m.sys)
      → m.sys.pc k ≡ won i
      → Good (record m { sys = steal_at luck k (won i) m.sys })
  unfolding steal_at
  won-Good m luck k i good inv at = record {
    deque = inv;
    fits = λ j p. elim (ℕ_discrete i j) [
      | yes e ↦ Fits-eq {t = worker k} (ground arith) refl refl (
          subst (λ t. Fits t (m.d j) (m.given (m.sys.f j)))
            (ap m.sys.thief (sym e) ∙ (held_by m k i (won i) good at refl).0) (good.fits j p))
      | no ne ↦ Fits-eq (ground arith) refl refl (good.fits j p)
    ];
    past = good.past;
    right = good.right;
  }

  -- A thief is done: the result takes the place of the arguments.
  running-Good :
      (m : Machine A R) (luck : Bool) (k i : ℕ)
      → Good m
      → Inv (steal_at luck k (running i) m.sys)
      → m.sys.pc k ≡ running i
      → Good (record m {
        sys = steal_at luck k (running i) m.sys;
        d = update m.d i (wrap work (m.d i));
      })
  unfolding steal_at wrap
  running-Good m luck k i good inv at = record {
    deque = inv;
    fits = λ j p. elim (ℕ_discrete i j) [
      | yes e ↦
          let (a, d, g) =
            subst (λ t. Fits t (m.d j) (m.given (m.sys.f j)))
              (ap m.sys.thief (sym e) ∙ (held_by m k i (running i) good at refl).0)
              (good.fits j p) in
          Fits-eq {t = completed} {d = res (work a)} (ground arith) (ground arith) refl (a, refl, g)
      | no ne ↦ Fits-eq (ground arith) (ground arith) refl (good.fits j p)
    ];
    past = good.past;
    right = good.right;
  }

  pub thief-Good :
      (m : Machine A R) (luck : Bool) (k : ℕ) (p : ThiefPc)
      → Good m
      → Inv (steal_at luck k p m.sys)
      → m.sys.pc k ≡ p
      → Good (record m { sys = steal_at luck k p m.sys; d = thief_writes work p m.d })
  unfolding thief_writes
  thief-Good m luck k (won i) good inv at = won-Good m luck k i good inv at
  thief-Good m luck k (running i) good inv at = running-Good m luck k i good inv at
  thief-Good m luck k p good inv at =
      quiet-Good m (steal_at luck k p m.sys) good inv (steal_at-Keeps m.sys luck k p (ground arith))
