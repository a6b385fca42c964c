-- ===== src/Circuits/ObliviousSort.antt =====
-- crates/circuits/src/oblivious_sort.rs on opened values: the positions that `gen_bit_perm` gives
-- to rows with dummy flags, and the placement of `apply_inv_many`. Ring elements of `PermRing` are
-- numbers below 2 ^ 32. `none` is an index out of range.
pub mod Length
pub mod Positions
pub mod Placed
pub mod Sorted
use gigadoram_rs.Base.{
  ℕ, ◌+◌, ◌-◌, ◌*◌, ◌%◌, ◌^◌, List, [], ◌∷◌, map, Option, some, Bool, if◌then◌else◌, length,
  get_elem?, set, replicate, zip_with, ltb, ◌>>=◌, ◌>>◌, ensure,
}

abbrev pub perm_ring : ℕ
perm_ring = 2 ^ 32

-- `bit_inject`: the flag as a ring element.
abbrev pub bit_inject : Bool → ℕ
bit_inject b = if b then 1 else 0

-- `-bit + 1`.
abbrev pub complement_bit : ℕ → ℕ
complement_bit bit = (perm_ring - bit + 1) % perm_ring

-- The running sums, from `sum` on.
pub running_sums : ℕ → List ℕ → List ℕ
running_sums sum [] = []
running_sums sum (x ∷ xs) = ((sum + x) % perm_ring) ∷ running_sums ((sum + x) % perm_ring) xs

-- The sum that the loop over a column leaves.
pub total : ℕ → List ℕ → ℕ
total sum [] = sum
total sum (x ∷ xs) = total ((sum + x) % perm_ring) xs

abbrev pub mul_ring : ℕ → ℕ → ℕ
mul_ring a b = a * b % perm_ring

abbrev pub add_ring : ℕ → ℕ → ℕ
add_ring a b = (a + b) % perm_ring

-- The position of each row, counted from 1: rows with bit 0 first, each kind in its order.
pub gen_bit_perm : List ℕ → List ℕ
unfolding running_sums total
gen_bit_perm bits =
    let zeros = map complement_bit bits in
    let zero_counts = running_sums 0 zeros in
    let one_counts = running_sums (total 0 zeros) bits in
    zip_with add_ring (zip_with mul_ring zeros zero_counts) (zip_with mul_ring bits one_counts)

-- `perm.iter().map(|i| rows[i])`
pub gather {ℓ} : {A : Type ℓ} → List A → List ℕ → Option (List A)
gather rows [] = some []
gather rows (i ∷ perm) = do row ← get_elem? rows i; rest ← gather rows perm; some (row ∷ rest)

-- `result[position - 1] = row`, for each pair.
pub place {ℓ} : {A : Type ℓ} → List ℕ → List A → List A → Option (List A)
place [] rows result = some result
place (p ∷ ps) [] result = some result
place (p ∷ ps) (row ∷ rows) result = do
  ensure (ltb 0 p)
  ensure (ltb (p - 1) (length result))
  place ps rows (set result (p - 1) row)

-- `perm` is the joint random permutation under which positions and rows are opened.
pub apply_inv_many {ℓ} : {A : Type ℓ} → List ℕ → List ℕ → A → List A → Option (List A)
unfolding gather place
apply_inv_many perm rho zero_row rows = do
  opened ← gather rho perm
  shuffled ← gather rows perm
  place opened shuffled (replicate (length rho) zero_row)

unfoldable pub sort {ℓ} : {A : Type ℓ} → List ℕ → A → List Bool → List A → Option (List A)
unfolding gen_bit_perm apply_inv_many
sort perm zero_row dummy_flags rows =
    apply_inv_many perm (gen_bit_perm (map bit_inject dummy_flags)) zero_row rows
