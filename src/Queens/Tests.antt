-- ===== src/Queens/Tests.antt =====
-- The known counts, and instances of the theorems.
use lace.Prelude.{ℕ, ◌≡◌, refl, true, List, [], ◌∷◌, total}
use lace.Queens.{ok, nqueens}

abbrev four : List ℕ
four = 1 ∷ 3 ∷ 0 ∷ 2 ∷ []

peaceful_four : ok four ≡ true
unfolding ok
peaceful_four = refl

four_queens : nqueens 4 4 [] ≡ 2
unfolding nqueens total
four_queens = refl
