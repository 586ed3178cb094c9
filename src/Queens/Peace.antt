-- ===== src/Queens/Peace.antt =====
-- What `ok` tests.
use lace.Prelude.{
  ℕ, zero, suc, ◌+◌, ◌-◌, ◌<◌, ◌≡◌, ◌≢◌, ◌↔◌, refl, true, List, [], ◌∷◌, arith, Option, some, none,
}
use lace.Queens.{clear, ok}

-- The column of queen `i`.
abbrev pub column : ℕ → List ℕ → Option ℕ
column i [] = none
column zero (p ∷ a) = some p
column (suc i) (p ∷ a) = column i a

-- No two queens of a board stand in one column or on one diagonal.
abbrev pub IsPeaceful : List ℕ → Type 0
IsPeaceful a =
    (i j p q : ℕ)
    → i < j
    → column i a ≡ some p
    → column j a ≡ some q
    → (q ≢ p) × (q + (j - i) ≢ p) × (q ≢ p + (j - i))

clear_sound :
    (p d : ℕ) (a : List ℕ)
    → clear p d a ≡ true
    → (k q : ℕ) → column k a ≡ some q
    → (q ≢ p) × (q + (d + k) ≢ p) × (q ≢ p + (d + k))
unfolding clear
clear_sound p d [] e k q at = absurd (ground arith)
clear_sound p d (r ∷ a) e zero q at = ground arith
clear_sound p d (r ∷ a) e (suc k) q at =
    ground (arith, clear_sound p (d + 1) a (ground arith) k q at)

clear_complete :
    (p d : ℕ) (a : List ℕ)
    → ((k q : ℕ) → column k a ≡ some q → (q ≢ p) × (q + (d + k) ≢ p) × (q ≢ p + (d + k)))
    → clear p d a ≡ true
unfolding clear
clear_complete p d [] free = refl
clear_complete p d (r ∷ a) free =
    ground (
      arith,
      free 0 r refl,
      clear_complete p (d + 1) a (λ k q at. ground (arith, free (suc k) q at)),
    )

ok_sound : (a : List ℕ) → ok a ≡ true → IsPeaceful a
unfolding ok
ok_sound [] e i j p q low at at' = absurd (ground arith)
ok_sound (r ∷ a) e zero zero p q low at at' = absurd (omega arith)
ok_sound (r ∷ a) e zero (suc j) p q low at at' =
    ground (arith, clear_sound r 1 a (ground arith) j q at')
ok_sound (r ∷ a) e (suc i) zero p q low at at' = absurd (omega arith)
ok_sound (r ∷ a) e (suc i) (suc j) p q low at at' =
    ground (arith, ok_sound a (ground arith) i j p q (omega arith) at at')

ok_complete : (a : List ℕ) → IsPeaceful a → ok a ≡ true
unfolding ok
ok_complete [] free = refl
ok_complete (r ∷ a) free = ground (
  arith,
  clear_complete r 1 a (λ k q at. ground (arith, free 0 (suc k) r q (omega arith) refl at)),
  ok_complete a
      (λ i j p q low at at'. ground (arith, free (suc i) (suc j) p q (omega arith) at at')),
)

-- `ok` returns true on exactly the boards on which no two queens stand in one column or on one
-- diagonal.
pub ok_lem : (a : List ℕ) → (ok a ≡ true) ↔ IsPeaceful a
ok_lem a = (ok_sound a, ok_complete a)
