-- ===== src/Primitives/Permutation/Swap.antt =====
-- `slice::swap`, and the transposition of indices that it makes.
use gigadoram_rs.Base.{
  ℕ, ◌<◌, ◌≡◌, ◌∙◌, List, Option, some, arith, ◌==◌, if◌then◌else◌, length, get_elem?, set, ◌>>=◌,
  length-set, get_elem?-set, get_elem?-of_lt,
}

unfoldable pub swap {ℓ} : {A : Type ℓ} → List A → ℕ → ℕ → Option (List A)
swap values i j = do x ← get_elem? values i; y ← get_elem? values j; some (set (set values i y) j x)

-- Where the value at index `k` comes from.
abbrev pub transpose : ℕ → ℕ → ℕ → ℕ
transpose i j k = if k == i then j else if k == j then i else k

pub transpose_twice : (i j k : ℕ) → transpose i j (transpose i j k) ≡ k
transpose_twice i j k = ground arith

pub transpose-lt : (i j k n : ℕ) → i < n → j < n → k < n → transpose i j k < n
transpose-lt i j k n hi hj hk = ground arith

module _ {A : Type 0} where
  get_elem?-set-set :
      (xs : List A) (i j k : ℕ) (x y : A)
      → get_elem? xs i ≡ some x
      → get_elem? xs j ≡ some y
      → i < length xs
      → j < length xs
      → get_elem? (set (set xs i y) j x) k ≡ get_elem? xs (transpose i j k)
  get_elem?-set-set xs i j k x y hx hy hi hj =
      ground (arith, get_elem?-set (set xs i y) j k x, length-set xs i y, get_elem?-set xs i k y hi)

  -- Inside the slice a swap succeeds, and moves the values by the transposition.
  pub swap_lem :
      (xs : List A) (i j : ℕ)
      → i < length xs
      → j < length xs
      → (ys : List A) × (swap xs i j ≡ some ys)
        × (length ys ≡ length xs)
        × ((k : ℕ) → get_elem? ys k ≡ get_elem? xs (transpose i j k))
  unfolding swap
  swap_lem xs i j hi hj =
      let (x, ex) = get_elem?-of_lt xs i hi in
      let (y, ey) = get_elem?-of_lt xs j hj in
      (
        set (set xs i y) j x,
        ground arith,
        length-set (set xs i y) j x ∙ length-set xs i y,
        λ k. get_elem?-set-set xs i j k x y ex ey hi hj,
      )
