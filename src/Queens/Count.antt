-- ===== src/Queens/Count.antt =====
-- The search with its tests against a search through all boards.
use lace.Prelude.{ℕ, zero, suc, ◌≡◌, refl, Bool, List, [], ◌∷◌, ◌++◌, if◌then◌else◌, arith, total}
use lace.Queens.{ok, nqueens, spawned, sum_of, nqueens_task}

-- How many of all the ways to add `left` queens make a board that passes the test.
unfoldable pub boards : (List ℕ → Bool) → (n left : ℕ) → List ℕ → ℕ
boards test n zero a = if test a then 1 else 0
boards test n (suc left) a = total (λ i. boards test n left (a ++ i ∷ [])) n

sum-spawned :
    (n left k : ℕ) (a : List ℕ)
    → ((b : List ℕ) → nqueens_task n left b ≡ nqueens n left b)
    → sum_of (nqueens_task n left) (spawned k a)
      ≡ total
          (λ i. let rest = nqueens n left (a ++ i ∷ []) in if ok (a ++ i ∷ []) then rest else 0)
          k
unfolding spawned total
sum-spawned n left zero a same = refl
sum-spawned n left (suc k) a same = ground (arith, sum-spawned n left k a same, same (a ++ k ∷ []))

-- The parallel `nqueens`, which adds the results of its tasks as they are synchronized, the last
-- one first, returns the same as the sequential one.
pub nqueens_task-eq-nqueens : (n left : ℕ) (a : List ℕ) → nqueens_task n left a ≡ nqueens n left a
unfolding nqueens_task nqueens
nqueens_task-eq-nqueens n zero a = refl
nqueens_task-eq-nqueens n (suc left) a =
    sum-spawned n left n a (λ b. nqueens_task-eq-nqueens n left b)
