-- ===== src/Queens.antt =====
-- benchmarks/queens/queens-seq.c and queens-lace.c: how many ways there are to place `n` queens.
pub mod Count
pub mod Peace
mod Tests
use lace.Prelude.{
  ℕ, zero, suc, ◌+◌, Bool, true, false, ◌&&◌, List, [], ◌∷◌, ◌++◌, ◌==◌, if◌then◌else◌, total,
}

-- The inner loop of `ok` for the queen `p`, from distance `d` on.
unfoldable pub clear : (p d : ℕ) → List ℕ → Bool
clear p d [] = true
clear p d (q ∷ rest) =
    let later = clear p (d + 1) rest in
    if q == p then false else if q + d == p then false else if q == p + d then false else later

-- `ok`
unfoldable pub ok : List ℕ → Bool
unfolding clear
ok [] = true
ok (p ∷ rest) = clear p 1 rest && ok rest

-- `nqueens` of queens-seq.c with `left` queens to place, that is `n - j`.
unfoldable pub nqueens : (n left : ℕ) → List ℕ → ℕ
unfolding ok
nqueens n zero a = 1
nqueens n (suc left) a =
    total (λ i. let rest = nqueens n left (a ++ i ∷ []) in if ok (a ++ i ∷ []) then rest else 0) n

-- The loop of `SPAWN`s of queens-lace.c: the boards of the tasks, the last one first.
unfoldable pub spawned : (n : ℕ) → List ℕ → List (List ℕ)
unfolding ok
spawned zero a = []
spawned (suc i) a =
    let earlier = spawned i a in if ok (a ++ i ∷ []) then (a ++ i ∷ []) ∷ earlier else earlier

-- The loop of `SYNC`s: each takes the task that was spawned last.
abbrev pub sum_of : (List ℕ → ℕ) → List (List ℕ) → ℕ
sum_of f [] = 0
sum_of f (b ∷ l) = f b + sum_of f l

-- `nqueens` of queens-lace.c
unfoldable pub nqueens_task : (n left : ℕ) → List ℕ → ℕ
unfolding spawned
nqueens_task n zero a = 1
nqueens_task n (suc left) a = sum_of (nqueens_task n left) (spawned n a)
