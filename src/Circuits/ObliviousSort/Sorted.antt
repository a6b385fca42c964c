-- ===== src/Circuits/ObliviousSort/Sorted.antt =====
-- The sort is a stable partition.
use gigadoram_rs.Base.{
  some-inj, ℕ, suc, ◌+◌, ◌-◌, ◌<◌, ◌≤◌, ◌≡◌, ◌⊎◌, inl, inr, refl, sym, ap, subst, ◌∙◌, arith, List,
  [], ◌++◌, none, some, Bool, length, get_elem?, get_elem?-of_lt, lt_of_get_elem?, get_elem?-ext,
  length-append, length-replicate, replicate, length-range, range, Option-cases, dec_lt,
}
use gigadoram_rs.Primitives.Permutation.Evaluate.{get_elem?-range}
use gigadoram_rs.Circuits.ObliviousSort.{perm_ring, apply_inv_many, sort}
use gigadoram_rs.Circuits.ObliviousSort.Positions.{
  real_rows, dummy_rows, reals, dummies, positions, reals-dummies, gen_bit_perm_lem,
  length-positions, length-real_rows, length-dummy_rows, positions_row, positions_cover,
  positions_positive,
}
use gigadoram_rs.Circuits.ObliviousSort.Placed.{Distinct, Gathered, gather_lem, Placed, place_lem}

-- A list that holds each of the first `n` numbers once.
pub record IsPermutation (n : ℕ) (perm : List ℕ) : Type 0 where
  pub small : (k i : ℕ) → get_elem? perm k ≡ some i → i < n
  pub once : Distinct perm
  pub cover : (i : ℕ) → i < n → (k : ℕ) × (get_elem? perm k ≡ some i)

beyond : {A : Type 0} (xs : List A) (j : ℕ) → length xs ≤ j → get_elem? xs j ≡ none
beyond xs j h = elim (Option-cases (get_elem? xs j)) [
  | inl e ↦ e
  | inr (x, e) ↦ absurd (omega (arith, h, lt_of_get_elem? xs j e))
]

module _ {A : Type 0} (perm : List ℕ) (zero_row : A) (flags : List Bool) (rows : List A)
    (shuffled : IsPermutation (length flags) perm) (same : length rows ≡ length flags)
    (fits : length flags < perm_ring) where
  abbrev rho : List ℕ
  rho = positions 0 (reals flags) flags

  abbrev sorted : List A
  sorted = real_rows flags rows ++ dummy_rows flags rows

  rho_length : length rho ≡ length flags
  rho_length = length-positions 0 (reals flags) flags

  sorted_length : length sorted ≡ length flags
  sorted_length = omega (
    arith,
    length-append (real_rows flags rows) (dummy_rows flags rows),
    length-real_rows flags rows same,
    length-dummy_rows flags rows same,
    reals-dummies flags,
  )

  row_place :
      (i p : ℕ) (row : A)
      → get_elem? rho i ≡ some p
      → get_elem? rows i ≡ some row
      → get_elem? sorted (p - 1) ≡ some row
  row_place i p row =
      positions_row flags rows [] [] 0 (reals flags) i p row refl
        (omega (arith, length-real_rows flags rows same))

  -- By the place that the row's own number takes.
  rho_once : Distinct rho
  rho_once i i' p h h' =
      let n = length flags in
      let numbered = length-range 0 n in
      let number : (j : ℕ)
          → get_elem? rho j ≡ some p
          → get_elem? (real_rows flags (range 0 n) ++ dummy_rows flags (range 0 n)) (p - 1)
            ≡ some j =
        λ j at.
          positions_row flags (range 0 n) [] [] 0 (reals flags) j p j refl
            (omega (arith, length-real_rows flags (range 0 n) numbered)) at
            (get_elem?-range 0 n j (omega (arith, lt_of_get_elem? rho j at, rho_length))
              ∙ ap some {x = 0 + j} (omega arith)) in
      some-inj (sym (number i h) ∙ number i' h')

  row_of : (i : ℕ) → i < length flags → (row : A) × (get_elem? rows i ≡ some row)
  row_of i lt = get_elem?-of_lt rows i (omega (arith, lt, same))

  rho_inside : (i p : ℕ) → get_elem? rho i ≡ some p → (0 < p) × (p - 1 < length flags)
  rho_inside i p h =
      let (row, at) = row_of i (omega (arith, lt_of_get_elem? rho i h, rho_length)) in
      (
        positions_positive flags 0 (reals flags) i p h,
        omega (arith, lt_of_get_elem? sorted (p - 1) (row_place i p row h at), sorted_length),
      )

  opened : Gathered rho perm
  opened = gather_lem rho perm (λ k i h. omega (arith, shuffled.small k i h, rho_length))

  picked : Gathered rows perm
  picked = gather_lem rows perm (λ k i h. omega (arith, shuffled.small k i h, same))

  -- The row of the position that was opened at `k`.
  opened_at :
      (k p : ℕ)
      → get_elem? opened.out k ≡ some p
      → (i : ℕ) × (get_elem? perm k ≡ some i) × (get_elem? rho i ≡ some p)
  opened_at k p h =
      let (i, at) =
        get_elem?-of_lt perm k (omega (arith, lt_of_get_elem? opened.out k h, opened.size)) in
      (i, at, sym (opened.rows_at k i at) ∙ h)

  placed : Placed opened.out picked.out (replicate (length rho) zero_row)
  placed =
      place_lem opened.out picked.out (replicate (length rho) zero_row)
        (picked.size ∙ sym opened.size)
        (λ k p h.
          let (i, _, at) = opened_at k p h in
          let (a, b) = rho_inside i p at in
          (a, omega (arith, b, rho_length, length-replicate (length rho) zero_row)))
        (λ k k' p h h'.
          let (i, at, rho_at) = opened_at k p h in
          let (i', at', rho_at') = opened_at k' p h' in
          shuffled.once k k' i at (at' ∙ ap some (sym (rho_once i i' p rho_at rho_at'))))

  placed-sorted : placed.out ≡ sorted
  placed-sorted = get_elem?-ext placed.out sorted λ j. elim (dec_lt j (length flags)) [
    | yes lt ↦
        let (i, i_lt, at) = positions_cover flags 0 (reals flags) j (side j lt) in
        let (k, perm_at) = shuffled.cover i i_lt in
        let (row, row_at) = row_of i i_lt in
        subst (λ (n : ℕ). get_elem? placed.out n ≡ get_elem? sorted n) {x = suc j - 1} (omega arith)
          (placed.row_at k (suc j) row (opened.rows_at k i perm_at ∙ at)
              (picked.rows_at k i perm_at ∙ row_at)
            ∙ sym (row_place i (suc j) row at row_at))
    | no out ↦
        beyond placed.out j
          (omega (arith, out, placed.size, length-replicate (length rho) zero_row, rho_length))
        ∙ sym (beyond sorted j (omega (arith, out, sorted_length)))
  ]
    where
      side :
          (j : ℕ)
          → j < length flags
          → ((0 ≤ j) × (j < 0 + reals flags))
            ⊎ ((reals flags ≤ j) × (j < reals flags + dummies flags))
      side j lt = elim (dec_lt j (reals flags)) [
        | yes before ↦ inl (omega arith, omega (arith, before))
        | no after ↦ inr (omega (arith, after), omega (arith, lt, reals-dummies flags))
      ]

  -- The sort returns the rows without the dummy flag and then those with it, each kind in the order
  -- in which it came, whatever permutation the rows are shuffled and opened under. There are as many
  -- flags as rows, and fewer than ring elements.
  pub sort_lem :
      sort perm zero_row flags rows ≡ some (real_rows flags rows ++ dummy_rows flags rows)
  unfolding sort apply_inv_many opened picked placed
  sort_lem =
      ap (λ r. apply_inv_many perm r zero_row rows) (gen_bit_perm_lem flags fits)
      ∙ rw (opened.run, picked.run, placed.run) (ap some placed-sorted)
