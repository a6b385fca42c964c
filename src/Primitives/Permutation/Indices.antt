-- ===== src/Primitives/Permutation/Indices.antt =====
-- What the shuffles do to the order of the values: each is read off an index function.
use gigadoram_rs.Base.{
  ℕ, zero, suc, ◌-◌, ◌<◌, ◌≤◌, ◌≡◌, refl, ◌∙◌, List, [], ◌∷◌, some, arith, length, get_elem?,
  get_or,
}
use gigadoram_rs.Primitives.Permutation.Swap.{swap_lem, transpose, transpose_twice, transpose-lt}
use gigadoram_rs.Primitives.Permutation.{swaps_down, swaps_up}

-- Each choice stands at or below its own index.
abbrev pub ChoicesFit : List ℕ → ℕ → Type 0
ChoicesFit fy k = (i : ℕ) → 0 < i → i ≤ k → (j : ℕ) × (get_elem? fy i ≡ some j) × (j ≤ i)

-- The choice at `i`.
abbrev choice : List ℕ → ℕ → ℕ
choice fy i = get_or fy i 0

-- Where `swaps_up fy k` takes the value at an index from, and where it puts one.
abbrev pub source : List ℕ → ℕ → ℕ → ℕ
source fy zero x = x
source fy (suc i) x = source fy i (transpose (suc i) (choice fy (suc i)) x)

abbrev pub target : List ℕ → ℕ → ℕ → ℕ
target fy zero x = x
target fy (suc i) x = transpose (suc i) (choice fy (suc i)) (target fy i x)

get_or-eq : (fy : List ℕ) (i : ℕ) {j : ℕ} → get_elem? fy i ≡ some j → get_or fy i 0 ≡ j
get_or-eq [] i h = cc
get_or-eq (x ∷ fy) zero h = cc
get_or-eq (x ∷ fy) (suc i) h = get_or-eq fy i h

pub source-target : (fy : List ℕ) (k x : ℕ) → source fy k (target fy k x) ≡ x
source-target fy zero x = refl
source-target fy (suc i) x =
    rw (transpose_twice (suc i) (choice fy (suc i)) (target fy i x)) (source-target fy i x)

pub target-source : (fy : List ℕ) (k x : ℕ) → target fy k (source fy k x) ≡ x
target-source fy zero x = refl
target-source fy (suc i) x =
    rw (target-source fy i (transpose (suc i) (choice fy (suc i)) x))
      (transpose_twice (suc i) (choice fy (suc i)) x)

choice-le : (fy : List ℕ) (k i : ℕ) → ChoicesFit fy k → 0 < i → i ≤ k → choice fy i ≤ i
choice-le fy k i fit pos h = let (j, e, le) = fit i pos h in rw (get_or-eq fy i e) le

pub source-lt : (fy : List ℕ) (k n x : ℕ) → ChoicesFit fy k → k ≤ n - 1 → x < n → source fy k x < n
source-lt fy zero n x fit kn h = h
source-lt fy (suc i) n x fit kn h =
    source-lt fy i n (transpose (suc i) (choice fy (suc i)) x) (λ m q p. fit m q (omega arith))
      (omega arith)
      (transpose-lt (suc i) (choice fy (suc i)) x n (omega arith)
        (omega (arith, choice-le fy (suc i) (suc i) fit (omega arith) (omega arith))) h)

module _ {A : Type 0} (fy : List ℕ) where
  -- The upward swaps succeed and move the values by `source`.
  pub swaps_up_lem :
      (k : ℕ) (xs : List A)
      → ChoicesFit fy k
      → k ≤ length xs - 1
      → (ys : List A) × (swaps_up fy k xs ≡ some ys)
        × (length ys ≡ length xs)
        × ((x : ℕ) → get_elem? ys x ≡ get_elem? xs (source fy k x))
  unfolding swaps_up
  swaps_up_lem zero xs fit h = (xs, refl, refl, λ x. refl)
  swaps_up_lem (suc i) xs fit h =
      let (zs, ez, lz, gz) = swaps_up_lem i xs (λ m q p. fit m q (omega arith)) (omega arith) in
      let (j, ej, jle) = fit (suc i) (omega arith) (omega arith) in
      let (ys, ey, ly, gy) = swap_lem zs (suc i) j (omega arith) (omega arith) in
      (
        ys,
        rw (ez, ej) ey,
        ly ∙ lz,
        λ x. rw (get_or-eq fy (suc i) ej) (gy x ∙ gz (transpose (suc i) j x)),
      )

  pub swaps_down_lem :
      (k : ℕ) (xs : List A)
      → ChoicesFit fy k
      → k ≤ length xs - 1
      → (ys : List A) × (swaps_down fy k xs ≡ some ys)
        × (length ys ≡ length xs)
        × ((x : ℕ) → get_elem? ys x ≡ get_elem? xs (target fy k x))
  unfolding swaps_down
  swaps_down_lem zero xs fit h = (xs, refl, refl, λ x. refl)
  swaps_down_lem (suc i) xs fit h =
      let (j, ej, jle) = fit (suc i) (omega arith) (omega arith) in
      let (zs, ez, lz, gz) = swap_lem xs (suc i) j (omega arith) (omega arith) in
      let (ys, ey, ly, gy) = swaps_down_lem i zs (λ m q p. fit m q (omega arith)) (omega arith) in
      (ys, rw (ej, ez) ey, ly ∙ lz, λ x. rw (get_or-eq fy (suc i) ej) (gy x ∙ gz (target fy i x)))
