-- ===== src/Primitives/Permutation/Inverse.antt =====
-- The two shuffles undo one another.
use gigadoram_rs.Base.{
  ℕ, ◌-◌, ◌<◌, ◌≤◌, ◌≡◌, ◌∙◌, ap, List, some, arith, ==_iff, length, get_elem?, range,
  get_elem?-ext,
}
use gigadoram_rs.Primitives.Permutation.Indices.{
  source, target, source-target, target-source, swaps_up_lem, swaps_down_lem,
}
use gigadoram_rs.Primitives.Permutation.{LocalPermutation, shuffle, inverse_shuffle}

-- A permutation as the constructors build it: a choice for each index, at or below the index; the
-- cached table, where there is one, is the shuffled identity.
pub record IsValid (p : LocalPermutation) : Type 0 where
  pub size : p.n ≡ length p.fy
  pub fit : (i : ℕ) → 0 < i → i < p.n → (j : ℕ) × (get_elem? p.fy i ≡ some j) × (j ≤ i)
  pub cached : (pi : List ℕ) → p.pi ≡ some pi → inverse_shuffle p (range 0 p.n) ≡ some pi

-- The highest index that the loops touch.
abbrev pub last : LocalPermutation → ℕ
last p = p.n - 1

module _ {A : Type 0} (p : LocalPermutation) (v : IsValid p) where
  -- `shuffle` succeeds on a slice of the right length, and moves the values by `target`.
  pub shuffle_lem :
      (xs : List A)
      → length xs ≡ p.n
      → (ys : List A) × (shuffle p xs ≡ some ys)
        × (length ys ≡ p.n)
        × ((x : ℕ) → get_elem? ys x ≡ get_elem? xs (target p.fy (last p) x))
  unfolding shuffle
  shuffle_lem xs same =
      let (ys, e, l, g) =
        swaps_down_lem p.fy (last p) xs (λ i q h. v.fit i q (omega arith)) (omega arith) in
      (ys, rw ((==_iff (length xs) p.n).1 same) e, l ∙ same, g)

  pub inverse_shuffle_lem :
      (xs : List A)
      → length xs ≡ p.n
      → (ys : List A) × (inverse_shuffle p xs ≡ some ys)
        × (length ys ≡ p.n)
        × ((x : ℕ) → get_elem? ys x ≡ get_elem? xs (source p.fy (last p) x))
  unfolding inverse_shuffle
  inverse_shuffle_lem xs same =
      let (ys, e, l, g) =
        swaps_up_lem p.fy (last p) xs (λ i q h. v.fit i q (omega arith)) (omega arith) in
      (ys, rw ((==_iff (length xs) p.n).1 same) e, l ∙ same, g)

  -- `inverse_shuffle` puts back what `shuffle` has moved: both succeed on a slice of the
  -- permutation's length, and the second returns the slice as it was.
  pub inverse_shuffle-shuffle :
      (xs : List A)
      → length xs ≡ p.n
      → (ys : List A) × (shuffle p xs ≡ some ys) × (inverse_shuffle p ys ≡ some xs)
  inverse_shuffle-shuffle xs same =
      let (ys, e, l, g) = shuffle_lem xs same in
      let (zs, e', l', g') = inverse_shuffle_lem ys l in
      let back : zs ≡ xs = get_elem?-ext zs xs λ x.
        g' x ∙ g (source p.fy (last p) x) ∙ ap (get_elem? xs) (target-source p.fy (last p) x) in
      (ys, e, e' ∙ ap some back)

  -- `shuffle` undoes `inverse_shuffle` in the same way.
  pub shuffle-inverse_shuffle :
      (xs : List A)
      → length xs ≡ p.n
      → (ys : List A) × (inverse_shuffle p xs ≡ some ys) × (shuffle p ys ≡ some xs)
  shuffle-inverse_shuffle xs same =
      let (ys, e, l, g) = inverse_shuffle_lem xs same in
      let (zs, e', l', g') = shuffle_lem ys l in
      let back : zs ≡ xs = get_elem?-ext zs xs λ x.
        g' x ∙ g (target p.fy (last p) x) ∙ ap (get_elem? xs) (source-target p.fy (last p) x) in
      (ys, e, e' ∙ ap some back)
