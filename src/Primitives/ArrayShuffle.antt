-- ===== src/Primitives/ArrayShuffle.antt =====
-- crates/primitives/src/array_shuffle.rs on opened arrays: the step of party `p` applies the
-- permutation that `p` and the next party know.
pub mod Inverse
pub mod Indices
use gigadoram_rs.Base.{List, Option, ◌>>=◌}
use gigadoram_rs.Primitives.Rep3.{PartyId, id0, id1, id2}
use gigadoram_rs.Primitives.Permutation.{LocalPermutation, shuffle, inverse_shuffle}

-- `next_shared_perm` of each party, which is `prev_shared_perm` of the next one.
pub record ArrayShuffler : Type 0 where
  pub next_shared_perm : PartyId → LocalPermutation

unfoldable pub forward {ℓ} : {A : Type ℓ} → ArrayShuffler → List A → Option (List A)
forward s values = do
  first ← shuffle (s.next_shared_perm id0) values
  second ← shuffle (s.next_shared_perm id1) first
  shuffle (s.next_shared_perm id2) second

-- The inverse arrays of `shuffle_many`.
unfoldable pub backward {ℓ} : {A : Type ℓ} → ArrayShuffler → List A → Option (List A)
backward s values = do
  first ← inverse_shuffle (s.next_shared_perm id2) values
  second ← inverse_shuffle (s.next_shared_perm id1) first
  inverse_shuffle (s.next_shared_perm id0) second
