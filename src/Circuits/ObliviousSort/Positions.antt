-- ===== src/Circuits/ObliviousSort/Positions.antt =====
-- The positions that `gen_bit_perm` computes.
use gigadoram_rs.Base.{
  some-inj, none-some, ℕ, zero, suc, ◌+◌, ◌-◌, ◌%◌, ◌<◌, ◌≤◌, ◌≡◌, refl, sym, ap, ap₂, subst, ◌∙◌,
  arith, List, [], ◌∷◌, ◌++◌, map, some, Bool, true, false, length, get_elem?, zip_with,
  length-append, get_elem?-append_right, ℕ_discrete, ◌⊎◌, inl, inr,
}
use mathlib.Core.List.{append_assoc}
use gigadoram_rs.Circuits.ObliviousSort.{
  perm_ring, bit_inject, complement_bit, running_sums, total, mul_ring, add_ring, gen_bit_perm,
}

-- The rows without the flag, and those with it, in their order.
abbrev pub real_rows {ℓ} : {A : Type ℓ} → List Bool → List A → List A
real_rows [] rows = []
real_rows (f ∷ fs) [] = []
real_rows (false ∷ fs) (row ∷ rows) = row ∷ real_rows fs rows
real_rows (true ∷ fs) (row ∷ rows) = real_rows fs rows

abbrev pub dummy_rows {ℓ} : {A : Type ℓ} → List Bool → List A → List A
dummy_rows [] rows = []
dummy_rows (f ∷ fs) [] = []
dummy_rows (false ∷ fs) (row ∷ rows) = dummy_rows fs rows
dummy_rows (true ∷ fs) (row ∷ rows) = row ∷ dummy_rows fs rows

abbrev pub reals : List Bool → ℕ
reals [] = 0
reals (false ∷ fs) = suc (reals fs)
reals (true ∷ fs) = reals fs

abbrev pub dummies : List Bool → ℕ
dummies [] = 0
dummies (false ∷ fs) = dummies fs
dummies (true ∷ fs) = suc (dummies fs)

-- The positions from 1, when `z` rows without the flag come before, and the others start after `o`.
abbrev pub positions : ℕ → ℕ → List Bool → List ℕ
positions z o [] = []
positions z o (false ∷ fs) = suc z ∷ positions (suc z) o fs
positions z o (true ∷ fs) = suc o ∷ positions z (suc o) fs

pub reals-dummies : (flags : List Bool) → reals flags + dummies flags ≡ length flags
reals-dummies [] = refl
reals-dummies (false ∷ fs) = omega (arith, reals-dummies fs)
reals-dummies (true ∷ fs) = omega (arith, reals-dummies fs)

total_lem :
    (z : ℕ) (flags : List Bool)
    → z + reals flags < perm_ring
    → total z (map complement_bit (map bit_inject flags)) ≡ z + reals flags
unfolding total
total_lem z [] small = omega arith
total_lem z (false ∷ fs) small =
    let next : (z + 1) % perm_ring ≡ suc z = omega (arith, small) in
    ap (λ (n : ℕ). total n (map complement_bit (map bit_inject fs))) next
    ∙ total_lem (suc z) fs (omega (arith, small))
    ∙ omega arith
total_lem z (true ∷ fs) small =
    let next : (z + 0) % perm_ring ≡ z = omega (arith, small) in
    ap (λ (n : ℕ). total n (map complement_bit (map bit_inject fs))) next ∙ total_lem z fs small

abbrev positions_of : ℕ → ℕ → List ℕ → List ℕ
positions_of z o bits =
    let zeros = map complement_bit bits in
    zip_with add_ring (zip_with mul_ring zeros (running_sums z zeros))
      (zip_with mul_ring bits (running_sums o bits))

positions_of_lem :
    (z o : ℕ) (flags : List Bool)
    → z + reals flags < perm_ring
    → o + dummies flags < perm_ring
    → positions_of z o (map bit_inject flags) ≡ positions z o flags
unfolding running_sums
positions_of_lem z o [] small small' = refl
positions_of_lem z o (false ∷ fs) small small' =
    let next : (z + 1) % perm_ring ≡ suc z = omega (arith, small) in
    let same : (o + 0) % perm_ring ≡ o = omega (arith, small') in
    ap₂ (λ (p : ℕ) ps. p ∷ ps) (omega (arith, next, same, small))
      (ap₂ (λ (a b : ℕ). positions_of a b (map bit_inject fs)) next same
        ∙ positions_of_lem (suc z) o fs (omega (arith, small)) small')
positions_of_lem z o (true ∷ fs) small small' =
    let next : (o + 1) % perm_ring ≡ suc o = omega (arith, small') in
    let same : (z + 0) % perm_ring ≡ z = omega (arith, small) in
    ap₂ (λ (p : ℕ) ps. p ∷ ps) (omega (arith, next, same, small'))
      (ap₂ (λ (a b : ℕ). positions_of a b (map bit_inject fs)) same next
        ∙ positions_of_lem z (suc o) fs small (omega (arith, small')))

-- Fewer rows than ring elements get the positions that the specification says.
pub gen_bit_perm_lem :
    (flags : List Bool)
    → length flags < perm_ring
    → gen_bit_perm (map bit_inject flags) ≡ positions 0 (reals flags) flags
unfolding gen_bit_perm
gen_bit_perm_lem flags small =
    let all = reals-dummies flags in
    ap (λ (o : ℕ). positions_of 0 o (map bit_inject flags))
      (total_lem 0 flags (omega (arith, all, small)) ∙ omega arith)
    ∙ positions_of_lem 0 (reals flags) flags (omega (arith, all, small)) (omega (arith, all, small))

pub length-positions : (z o : ℕ) (flags : List Bool) → length (positions z o flags) ≡ length flags
length-positions z o [] = refl
length-positions z o (false ∷ fs) = ap suc (length-positions (suc z) o fs)
length-positions z o (true ∷ fs) = ap suc (length-positions z (suc o) fs)

pub length-real_rows :
    {A : Type 0} (flags : List Bool) (rows : List A)
    → length rows ≡ length flags
    → length (real_rows flags rows) ≡ reals flags
length-real_rows [] rows h = refl
length-real_rows (f ∷ fs) [] h = absurd (omega (arith, h))
length-real_rows (false ∷ fs) (row ∷ rows) h = ap suc (length-real_rows fs rows (omega (arith, h)))
length-real_rows (true ∷ fs) (row ∷ rows) h = length-real_rows fs rows (omega (arith, h))

pub length-dummy_rows :
    {A : Type 0} (flags : List Bool) (rows : List A)
    → length rows ≡ length flags
    → length (dummy_rows flags rows) ≡ dummies flags
length-dummy_rows [] rows h = refl
length-dummy_rows (f ∷ fs) [] h = absurd (omega (arith, h))
length-dummy_rows (false ∷ fs) (row ∷ rows) h = length-dummy_rows fs rows (omega (arith, h))
length-dummy_rows (true ∷ fs) (row ∷ rows) h = ap suc (length-dummy_rows fs rows (omega (arith, h)))

at_end : {A : Type 0} (xs ys : List A) (x : A) → get_elem? (xs ++ (x ∷ ys)) (length xs) ≡ some x
at_end xs ys x =
    ap (get_elem? (xs ++ (x ∷ ys))) {x = length xs} {y = length xs + 0} (omega arith)
    ∙ get_elem?-append_right xs (x ∷ ys) 0

-- The position of a row is its place in the list of the rows without the flag and then those with it,
-- also behind rows `before` and `between` that come before them.
pub positions_row :
    {A : Type 0} (flags : List Bool) (rows before between : List A) (z o i p : ℕ) (row : A)
    → z ≡ length before
    → o ≡ length (before ++ real_rows flags rows) + length between
    → get_elem? (positions z o flags) i ≡ some p
    → get_elem? rows i ≡ some row
    → get_elem? ((before ++ real_rows flags rows) ++ (between ++ dummy_rows flags rows)) (p - 1)
      ≡ some row
positions_row [] rows before between z o i p row hz ho at there = absurd (none-some at)
positions_row (f ∷ fs) [] before between z o i p row hz ho at there = absurd (none-some there)
positions_row (false ∷ fs) (r ∷ rows) before between z o zero p row hz ho at there =
    let rest = between ++ dummy_rows fs rows in
    ap (get_elem? ((before ++ (r ∷ real_rows fs rows)) ++ rest)) {x = p - 1} {y = length before}
      (omega (arith, some-inj at, hz))
    ∙ ap (λ xs. get_elem? xs (length before)) (append_assoc before (r ∷ real_rows fs rows) rest)
    ∙ at_end before (real_rows fs rows ++ rest) r
    ∙ there
positions_row (false ∷ fs) (r ∷ rows) before between z o (suc i) p row hz ho at there =
    let joined : (before ++ (r ∷ [])) ++ real_rows fs rows ≡ before ++ (r ∷ real_rows fs rows) =
      append_assoc before (r ∷ []) (real_rows fs rows) in
    subst (λ xs. get_elem? (xs ++ (between ++ dummy_rows fs rows)) (p - 1) ≡ some row) joined
      (positions_row fs rows (before ++ (r ∷ [])) between (suc z) o i p row
        (omega (arith, hz, length-append before (r ∷ [])))
        (ho ∙ ap (λ xs. length xs + length between) (sym joined)) at there)
positions_row (true ∷ fs) (r ∷ rows) before between z o zero p row hz ho at there =
    let first = before ++ real_rows fs rows in
    ap (get_elem? (first ++ (between ++ (r ∷ dummy_rows fs rows)))) {x = p - 1}
      {y = length first + length between} (omega (arith, some-inj at, ho))
    ∙ get_elem?-append_right first (between ++ (r ∷ dummy_rows fs rows)) (length between)
    ∙ at_end between (dummy_rows fs rows) r
    ∙ there
positions_row (true ∷ fs) (r ∷ rows) before between z o (suc i) p row hz ho at there =
    subst (λ xs. get_elem? ((before ++ real_rows fs rows) ++ xs) (p - 1) ≡ some row)
      (append_assoc between (r ∷ []) (dummy_rows fs rows))
      (positions_row fs rows before (between ++ (r ∷ [])) z (suc o) i p row hz
        (omega (arith, ho, length-append between (r ∷ []))) at there)

-- Every place is the position of a row.
pub positions_cover :
    (flags : List Bool) (z o j : ℕ)
    → ((z ≤ j) × (j < z + reals flags)) ⊎ ((o ≤ j) × (j < o + dummies flags))
    → (i : ℕ) × (i < length flags) × (get_elem? (positions z o flags) i ≡ some (suc j))
positions_cover [] z o j (inl (a, b)) = absurd (omega (arith, a, b))
positions_cover [] z o j (inr (a, b)) = absurd (omega (arith, a, b))
positions_cover (false ∷ fs) z o j (inl (a, b)) = elim (ℕ_discrete z j) [
  | yes same ↦ (0, omega arith, ap (λ (n : ℕ). some (suc n)) same)
  | no other ↦
      let (i, lt, at) =
        positions_cover fs (suc z) o j (inl (omega (arith, a, other), omega (arith, b))) in
      (suc i, omega (arith, lt), at)
]
positions_cover (false ∷ fs) z o j (inr h) =
    let (i, lt, at) = positions_cover fs (suc z) o j (inr h) in (suc i, omega (arith, lt), at)
positions_cover (true ∷ fs) z o j (inl h) =
    let (i, lt, at) = positions_cover fs z (suc o) j (inl h) in (suc i, omega (arith, lt), at)
positions_cover (true ∷ fs) z o j (inr (a, b)) = elim (ℕ_discrete o j) [
  | yes same ↦ (0, omega arith, ap (λ (n : ℕ). some (suc n)) same)
  | no other ↦
      let (i, lt, at) =
        positions_cover fs z (suc o) j (inr (omega (arith, a, other), omega (arith, b))) in
      (suc i, omega (arith, lt), at)
]

pub positions_positive :
    (flags : List Bool) (z o i p : ℕ) → get_elem? (positions z o flags) i ≡ some p → 0 < p
positions_positive [] z o i p h = absurd (none-some h)
positions_positive (false ∷ fs) z o zero p h = omega (arith, some-inj h)
positions_positive (true ∷ fs) z o zero p h = omega (arith, some-inj h)
positions_positive (false ∷ fs) z o (suc i) p h = positions_positive fs (suc z) o i p h
positions_positive (true ∷ fs) z o (suc i) p h = positions_positive fs z (suc o) i p h
