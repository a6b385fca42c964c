-- ===== src/Primitives/Permutation.antt =====
-- crates/primitives/src/permutation.rs: a permutation known to one party, as its Fisher-Yates
-- choices. `none` is a panic: a failed assertion or an index out of range.
pub mod Swap
pub mod Indices
pub mod Inverse
pub mod Evaluate
mod Tests
use gigadoram_rs.Base.{
  ℕ, zero, suc, ◌-◌, ◌+◌, List, [], ◌∷◌, map, Option, none, some, Bool, ltb, ◌==◌, length, range,
  get_elem?, ◌>>=◌, ◌>>◌, ensure,
}
use Swap.{swap}

-- `pi` caches the table that `evaluate_at` reads.
pub record LocalPermutation : Type 0 where
  pub n : ℕ
  pub fy : List ℕ
  pub pi : Option (List ℕ)

-- The choice at 0 stays 0; `draw i` is what the generator gives for `gen_range(0..=i)`.
unfoldable pub sample_choices : ℕ → (ℕ → ℕ) → List ℕ
sample_choices zero draw = []
sample_choices (suc n) draw = 0 ∷ map draw (range 1 n)

unfoldable pub sample_from_rng : ℕ → (ℕ → ℕ) → LocalPermutation
unfolding sample_choices
sample_from_rng n draw = record { n = n; fy = sample_choices n draw; pi = none }

unfoldable pub from_fisher_yates : List ℕ → LocalPermutation
from_fisher_yates fy = record { n = length fy; fy = fy; pi = none }

module _ {ℓ} {A : Type ℓ} (fy : List ℕ) where
  -- `for i in (1..k + 1).rev() { values.swap(i, fy[i]) }`
  pub swaps_down : ℕ → List A → Option (List A)
  unfolding swap
  swaps_down zero values = some values
  swaps_down (suc i) values = do
    j ← get_elem? fy (suc i)
    swapped ← swap values (suc i) j
    swaps_down i swapped

  -- `for i in 1..k + 1 { values.swap(i, fy[i]) }`
  pub swaps_up : ℕ → List A → Option (List A)
  unfolding swap
  swaps_up zero values = some values
  swaps_up (suc i) values = do
    before ← swaps_up i values
    j ← get_elem? fy (suc i)
    swap before (suc i) j

unfoldable pub shuffle {ℓ} : {A : Type ℓ} → LocalPermutation → List A → Option (List A)
unfolding swaps_down
shuffle p values = do ensure (length values == p.n); swaps_down p.fy (p.n - 1) values

unfoldable pub inverse_shuffle {ℓ} : {A : Type ℓ} → LocalPermutation → List A → Option (List A)
unfolding swaps_up
inverse_shuffle p values = do ensure (length values == p.n); swaps_up p.fy (p.n - 1) values

-- The table, computed at the first call.
unfoldable pub table : LocalPermutation → Option (List ℕ)
unfolding inverse_shuffle
table p = elim p.pi [ none ↦ inverse_shuffle p (range 0 p.n) | some pi ↦ some pi ]

unfoldable pub evaluate_at : LocalPermutation → ℕ → Option (ℕ × LocalPermutation)
unfolding table
evaluate_at p input = do
  ensure (ltb input p.n)
  pi ← table p
  index ← get_elem? pi input
  some (index, record p { pi = some pi })
