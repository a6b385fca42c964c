-- ===== src/Primitives/Permutation/Tests.antt =====
-- The source's own tests of the permutation, and the theorems at concrete inputs.
use gigadoram_rs.Base.{
  ℕ, zero, suc, ◌<◌, ◌≤◌, ◌≡◌, ◌≢◌, refl, List, [], ◌∷◌, none, some, arith, get_elem?,
}
use gigadoram_rs.Primitives.Permutation.{
  LocalPermutation, from_fisher_yates, sample_from_rng, shuffle, inverse_shuffle, evaluate_at,
}
use gigadoram_rs.Primitives.Permutation.Inverse.{IsValid, inverse_shuffle-shuffle}
use gigadoram_rs.Primitives.Permutation.Evaluate.{
  evaluate_at-shuffle, evaluate_at-injective, sample_from_rng-IsValid,
}

abbrev four : LocalPermutation
four = record { n = 4; fy = 0 ∷ 0 ∷ 1 ∷ 1 ∷ []; pi = none }

abbrev table_of_four : List ℕ
table_of_four = 1 ∷ 3 ∷ 0 ∷ 2 ∷ []

abbrev letters : List ℕ
letters = 0 ∷ 1 ∷ 2 ∷ 3 ∷ []

four_lem : from_fisher_yates (0 ∷ 0 ∷ 1 ∷ 1 ∷ []) ≡ four
unfolding from_fisher_yates
four_lem = refl

shuffle_matches_backward_order : shuffle four letters ≡ some (2 ∷ 0 ∷ 3 ∷ 1 ∷ [])
unfolding shuffle
shuffle_matches_backward_order = refl

evaluated : evaluate_at four 1 ≡ some (3, record four { pi = some table_of_four })
unfolding evaluate_at
evaluated = refl

evaluated_two : evaluate_at four 2 ≡ some (0, record four { pi = some table_of_four })
unfolding evaluate_at
evaluated_two = refl

four-IsValid : IsValid four
four-IsValid = record { size = refl; fit = choices; cached = λ pi e. cc }
  where
    choices : (i : ℕ) → 0 < i → i < 4 → (j : ℕ) × (get_elem? four.fy i ≡ some j) × (j ≤ i)
    choices zero q h = elim q [ ]
    choices (suc zero) q h = (0, refl, omega arith)
    choices (suc (suc zero)) q h = (1, refl, omega arith)
    choices (suc (suc (suc zero))) q h = (1, refl, omega arith)
    choices (suc (suc (suc (suc i)))) q h = absurd (omega arith)

inverse_shuffle-shuffle_example :
    (ys : List ℕ) × (shuffle four letters ≡ some ys) × (inverse_shuffle four ys ≡ some letters)
inverse_shuffle-shuffle_example = inverse_shuffle-shuffle four four-IsValid letters refl

evaluate_at-shuffle_example :
    (index : ℕ) × (q : LocalPermutation) × (evaluate_at four 1 ≡ some (index, q))
    × (index < 4)
    × (get_elem? (2 ∷ 0 ∷ 3 ∷ 1 ∷ []) index ≡ get_elem? letters 1)
    × IsValid q
    × (q.fy ≡ four.fy)
evaluate_at-shuffle_example =
    evaluate_at-shuffle four four-IsValid 1 letters (2 ∷ 0 ∷ 3 ∷ 1 ∷ []) (omega arith) refl
      shuffle_matches_backward_order

evaluate_at-injective_example : ◌≢◌ {A = ℕ} 3 0
evaluate_at-injective_example =
    evaluate_at-injective four four-IsValid 1 2 (omega arith) (omega arith) (omega arith) evaluated
      evaluated_two

sample_from_rng-IsValid_example : IsValid (sample_from_rng 4 (λ i. i))
sample_from_rng-IsValid_example = sample_from_rng-IsValid 4 (λ i. i) (λ i. omega arith)
