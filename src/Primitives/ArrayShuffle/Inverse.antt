-- ===== src/Primitives/ArrayShuffle/Inverse.antt =====
-- The two directions of a shuffle.
use gigadoram_rs.Base.{
  ℕ, ◌≡◌, sym, ◌∙◌, List, some, length, ◌==◌, ==_iff, ensure, ensure-eq-some, >>=-eq-some,
}
use gigadoram_rs.Primitives.Rep3.{PartyId, id0, id1, id2}
use gigadoram_rs.Primitives.Permutation.{LocalPermutation, inverse_shuffle}
use gigadoram_rs.Primitives.Permutation.Inverse.{IsValid, inverse_shuffle-shuffle}
use gigadoram_rs.Primitives.ArrayShuffle.{ArrayShuffler, forward, backward}

-- Every pair of neighbours holds a permutation of the array's length.
abbrev pub Fits : ArrayShuffler → ℕ → Type 0
Fits s n = (id : PartyId) → IsValid (s.next_shared_perm id) × ((s.next_shared_perm id).n ≡ n)

module _ {A : Type 0} where
  length-inverse_shuffle :
      (p : LocalPermutation) (ys xs : List A) → inverse_shuffle p ys ≡ some xs → length ys ≡ p.n
  unfolding inverse_shuffle
  length-inverse_shuffle p ys xs h =
      let (u, e, h') = >>=-eq-some (ensure (length ys == p.n)) _ h in
      (==_iff _ _).0 (ensure-eq-some _ e)

  -- On an array of the length of the shuffler's permutations, the three forward steps succeed, and
  -- the three inverse steps in the opposite order of the parties put the array back.
  pub backward-forward :
      (s : ArrayShuffler) (xs : List A)
      → Fits s (length xs)
      → (ys : List A) × (forward s xs ≡ some ys) × (backward s ys ≡ some xs)
  unfolding forward backward
  backward-forward s xs fits =
      let p0 = s.next_shared_perm id0 in
      let p1 = s.next_shared_perm id1 in
      let p2 = s.next_shared_perm id2 in
      let (v0, n0) = fits id0 in
      let (v1, n1) = fits id1 in
      let (v2, n2) = fits id2 in
      let (ys0, e0, b0) = inverse_shuffle-shuffle p0 v0 xs (sym n0) in
      let size0 = length-inverse_shuffle p0 ys0 xs b0 in
      let (ys1, e1, b1) = inverse_shuffle-shuffle p1 v1 ys0 (size0 ∙ n0 ∙ sym n1) in
      let size1 = length-inverse_shuffle p1 ys1 ys0 b1 in
      let (ys2, e2, b2) = inverse_shuffle-shuffle p2 v2 ys1 (size1 ∙ n1 ∙ sym n2) in
      (ys2, rw (e0, e1, e2), rw (b2, b1, b0))
