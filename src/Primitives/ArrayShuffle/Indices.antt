-- ===== src/Primitives/ArrayShuffle/Indices.antt =====
-- What the two directions of a shuffle do to the order of an array.
use gigadoram_rs.Base.{
  some-inj, ℕ, ◌<◌, ◌≡◌, sym, ap, ◌∙◌, arith, List, some, length, get_elem?, ◌==◌, ==_iff, ensure,
  ensure-eq-some, >>=-eq-some,
}
use gigadoram_rs.Primitives.Rep3.{id0, id1, id2}
use gigadoram_rs.Primitives.Permutation.{LocalPermutation, shuffle, inverse_shuffle}
use gigadoram_rs.Primitives.Permutation.Indices.{
  source, target, source-target, target-source, source-lt,
}
use gigadoram_rs.Primitives.Permutation.Inverse.{IsValid, last, shuffle_lem, inverse_shuffle_lem}
use gigadoram_rs.Primitives.ArrayShuffle.{ArrayShuffler, forward, backward}
use gigadoram_rs.Primitives.ArrayShuffle.Inverse.{Fits}

-- The index that `forward` takes the value at an index from, and the one that it puts it at.
unfoldable pub step_from : LocalPermutation → ℕ → ℕ
step_from p j = target p.fy (last p) j

unfoldable pub step_to : LocalPermutation → ℕ → ℕ
step_to p e = source p.fy (last p) e

pub taken_from : ArrayShuffler → ℕ → ℕ
unfolding step_from
taken_from s j =
    step_from (s.next_shared_perm id0)
      (step_from (s.next_shared_perm id1) (step_from (s.next_shared_perm id2) j))

pub put_at : ArrayShuffler → ℕ → ℕ
unfolding step_to
put_at s e =
    step_to (s.next_shared_perm id2)
      (step_to (s.next_shared_perm id1) (step_to (s.next_shared_perm id0) e))

to_from : (p : LocalPermutation) (j : ℕ) → step_to p (step_from p j) ≡ j
unfolding step_to step_from
to_from p j = source-target p.fy (last p) j

from_to : (p : LocalPermutation) (e : ℕ) → step_from p (step_to p e) ≡ e
unfolding step_to step_from
from_to p e = target-source p.fy (last p) e

step_to-lt : (p : LocalPermutation) (n e : ℕ) → IsValid p → p.n ≡ n → e < n → step_to p e < n
unfolding step_to
step_to-lt p n e v same lt =
    let inside =
      source-lt p.fy (last p) p.n e (λ k q w. v.fit k q (omega arith)) (omega arith)
        (omega (arith, same, lt)) in
    omega (arith, inside, same)

pub put_at-taken_from : (s : ArrayShuffler) (j : ℕ) → put_at s (taken_from s j) ≡ j
unfolding put_at taken_from
put_at-taken_from s j =
    let p0 = s.next_shared_perm id0 in
    let p1 = s.next_shared_perm id1 in
    let p2 = s.next_shared_perm id2 in
    ap (λ i. step_to p2 (step_to p1 i)) (to_from p0 (step_from p1 (step_from p2 j)))
    ∙ ap (step_to p2) (to_from p1 (step_from p2 j))
    ∙ to_from p2 j

pub taken_from-put_at : (s : ArrayShuffler) (e : ℕ) → taken_from s (put_at s e) ≡ e
unfolding put_at taken_from
taken_from-put_at s e =
    let p0 = s.next_shared_perm id0 in
    let p1 = s.next_shared_perm id1 in
    let p2 = s.next_shared_perm id2 in
    ap (λ i. step_from p0 (step_from p1 i)) (from_to p2 (step_to p1 (step_to p0 e)))
    ∙ ap (step_from p0) (from_to p1 (step_to p0 e))
    ∙ from_to p0 e

pub put_at-lt : (s : ArrayShuffler) (n e : ℕ) → Fits s n → e < n → put_at s e < n
unfolding put_at
put_at-lt s n e fits lt =
    let (v0, n0) = fits id0 in
    let (v1, n1) = fits id1 in
    let (v2, n2) = fits id2 in
    step_to-lt (s.next_shared_perm id2) n _ v2 n2 (
      step_to-lt (s.next_shared_perm id1) n _ v1 n1
        (step_to-lt (s.next_shared_perm id0) n e v0 n0 lt))

module _ {A : Type 0} where
  pub shuffle-at :
      (p : LocalPermutation) (xs ys : List A)
      → IsValid p
      → shuffle p xs ≡ some ys
      → (length xs ≡ p.n)
        × (length ys ≡ p.n)
        × ((j : ℕ) → get_elem? ys j ≡ get_elem? xs (step_from p j))
  unfolding shuffle step_from
  shuffle-at p xs ys v h =
      let (_, e, _) = >>=-eq-some (ensure (length xs == p.n)) _ h in
      let fits = (==_iff (length xs) p.n).0 (ensure-eq-some _ e) in
      let (zs, made, l, g) = shuffle_lem p v xs fits in
      let same : zs ≡ ys = some-inj (sym made ∙ h) in
      (fits, ap length (sym same) ∙ l, (λ j. ap (λ us. get_elem? us j) (sym same) ∙ g j))

  inverse_shuffle-at :
      (p : LocalPermutation) (xs ys : List A)
      → IsValid p
      → inverse_shuffle p xs ≡ some ys
      → (length ys ≡ p.n) × ((e : ℕ) → get_elem? ys e ≡ get_elem? xs (step_to p e))
  unfolding inverse_shuffle step_to
  inverse_shuffle-at p xs ys v h =
      let (_, e, _) = >>=-eq-some (ensure (length xs == p.n)) _ h in
      let fits = (==_iff (length xs) p.n).0 (ensure-eq-some _ e) in
      let (zs, made, l, g) = inverse_shuffle_lem p v xs fits in
      let same : zs ≡ ys = some-inj (sym made ∙ h) in
      (ap length (sym same) ∙ l, (λ j. ap (λ us. get_elem? us j) (sym same) ∙ g j))

  -- `forward` moves every array of the right length in the same way.
  pub forward-at :
      (s : ArrayShuffler) (n : ℕ) (xs ys : List A)
      → Fits s n
      → forward s xs ≡ some ys
      → (length xs ≡ n)
        × (length ys ≡ n)
        × ((j : ℕ) → get_elem? ys j ≡ get_elem? xs (taken_from s j))
  unfolding forward taken_from
  forward-at s n xs ys fits h =
      let p0 = s.next_shared_perm id0 in
      let p1 = s.next_shared_perm id1 in
      let p2 = s.next_shared_perm id2 in
      let (v0, n0) = fits id0 in
      let (v1, n1) = fits id1 in
      let (v2, n2) = fits id2 in
      let (first, e0, h1) = >>=-eq-some (shuffle p0 xs) _ h in
      let (second, e1, e2) = >>=-eq-some (shuffle p1 first) _ h1 in
      let (l, _, g0) = shuffle-at p0 xs first v0 e0 in
      let (_, _, g1) = shuffle-at p1 first second v1 e1 in
      let (_, l2, g2) = shuffle-at p2 second ys v2 e2 in
      (l ∙ n0, l2 ∙ n2, (λ j. g2 j ∙ g1 (step_from p2 j) ∙ g0 (step_from p1 (step_from p2 j))))

  pub backward-at :
      (s : ArrayShuffler) (n : ℕ) (xs ys : List A)
      → Fits s n
      → backward s xs ≡ some ys
      → (length ys ≡ n) × ((e : ℕ) → get_elem? ys e ≡ get_elem? xs (put_at s e))
  unfolding backward put_at
  backward-at s n xs ys fits h =
      let p0 = s.next_shared_perm id0 in
      let p1 = s.next_shared_perm id1 in
      let p2 = s.next_shared_perm id2 in
      let (v0, n0) = fits id0 in
      let (v1, n1) = fits id1 in
      let (v2, n2) = fits id2 in
      let (first, e0, h1) = >>=-eq-some (inverse_shuffle p2 xs) _ h in
      let (second, e1, e2) = >>=-eq-some (inverse_shuffle p1 first) _ h1 in
      let (_, g0) = inverse_shuffle-at p2 xs first v2 e0 in
      let (_, g1) = inverse_shuffle-at p1 first second v1 e1 in
      let (l2, g2) = inverse_shuffle-at p0 second ys v0 e2 in
      (l2 ∙ n0, (λ e. g2 e ∙ g1 (step_to p0 e) ∙ g0 (step_to p1 (step_to p0 e))))
