-- ===== src/Deque/HeadTests.antt =====
-- `lace_get_head` on concrete arrays and runs, and its theorems at an input.
use lace.Prelude.{ℕ, suc, ◌≡◌, refl, List, [], ◌∷◌, ◌++◌, some, arith, ltb, if◌then◌else◌}
use lace.Deque.State.{Thief, ready, spawn, drop_next}
use lace.Deque.Owner.{own}
use lace.Deque.Steal.{steal}
use lace.Deque.Interleaving.{init_worker, Move, owner, run}
use lace.Deque.Dropping.{drop-get_head}
use lace.Head.{double, zoom, get_head}

program : Unit {0}
unfolding run own steal get_head
program = tt

abbrev six_used : ℕ → Thief
six_used i = if ltb i 6 then Thief.task else Thief.empty

get_head_runs : get_head 11 six_used 10 ≡ some 6
unfolding get_head double zoom
get_head_runs = refl

-- Five spawns.
abbrev five : List Move
five =
    owner spawn
    ∷ owner spawn
    ∷ owner spawn
    ∷ owner spawn
    ∷ owner spawn
    ∷ owner spawn
    ∷ owner spawn
    ∷ owner spawn
    ∷ owner spawn
    ∷ owner spawn
    ∷ []

abbrev dropping : List Move
dropping = five ++ owner drop_next ∷ []

-- The head is 4, and the search gives 5.
drop-get_head_example :
    ((own spawn (run dropping (init_worker 8))).at ≡ ready)
    × ((own spawn (run dropping (init_worker 8))).head ≡ (run dropping (init_worker 8)).head)
    × (get_head
          (suc (run dropping (init_worker 8)).w.end)
          (own spawn (run dropping (init_worker 8))).thief
          (run dropping (init_worker 8)).w.end
        ≡ some (suc (run dropping (init_worker 8)).head))
unfolding program
drop-get_head_example =
    drop-get_head dropping 8 (omega arith) spawn (omega arith) refl (λ n. refl) refl (omega arith)
