-- ===== src/Circuits/ObliviousSort/Length.antt =====
-- The sort keeps the number of rows.
use gigadoram_rs.Base.{
  ℕ, ◌+◌, ◌-◌, ◌%◌, ◌≡◌, refl, ◌∙◌, arith, List, [], ◌∷◌, map, some, Bool, length, set, replicate,
  zip_with, ltb, length-map, length-replicate, length-set, length-zip_with, >>=-eq-some, ensure,
}
use gigadoram_rs.Circuits.ObliviousSort.{
  complement_bit, running_sums, total, mul_ring, add_ring, bit_inject, gen_bit_perm, place,
  apply_inv_many, sort, perm_ring, gather,
}

length-running_sums : (sum : ℕ) (xs : List ℕ) → length (running_sums sum xs) ≡ length xs
unfolding running_sums
length-running_sums sum [] = refl
length-running_sums sum (x ∷ xs) = omega (arith, length-running_sums ((sum + x) % perm_ring) xs)

length-gen_bit_perm : (bits : List ℕ) → length (gen_bit_perm bits) ≡ length bits
unfolding gen_bit_perm
length-gen_bit_perm bits =
    let zeros = map complement_bit bits in
    let zero_counts = running_sums 0 zeros in
    let one_counts = running_sums (total 0 zeros) bits in
    omega (
      arith,
      length-zip_with add_ring (zip_with mul_ring zeros zero_counts)
          (zip_with mul_ring bits one_counts),
      length-zip_with mul_ring zeros zero_counts,
      length-zip_with mul_ring bits one_counts,
      length-map bits complement_bit,
      length-running_sums 0 zeros,
      length-running_sums (total 0 zeros) bits,
    )

module _ {ℓ} {A : Type ℓ} where
  length-place :
      (ps : List ℕ) (rows result out : List A)
      → place ps rows result ≡ some out
      → length out ≡ length result
  unfolding place
  length-place [] rows result out h = cc
  length-place (p ∷ ps) [] result out h = cc
  length-place (p ∷ ps) (row ∷ rows) result out h =
      let (u, e, h') = >>=-eq-some (ensure (ltb 0 p)) _ h in
      let (u', e', h'') = >>=-eq-some (ensure (ltb (p - 1) (length result))) _ h' in
      length-place ps rows (set result (p - 1) row) out h'' ∙ length-set result (p - 1) row

  -- The sorted rows are as many as the flags.
  pub length-sort :
      (perm : List ℕ) (zero_row : A) (flags : List Bool) (rows out : List A)
      → sort perm zero_row flags rows ≡ some out
      → length out ≡ length flags
  unfolding sort apply_inv_many
  length-sort perm zero_row flags rows out h =
      let rho = gen_bit_perm (map bit_inject flags) in
      let (opened, e, h') = >>=-eq-some (gather rho perm) _ h in
      let (shuffled, e', h'') = >>=-eq-some (gather rows perm) _ h' in
      omega (
        arith,
        length-place opened shuffled (replicate (length rho) zero_row) out h'',
        length-replicate (length rho) zero_row,
        length-gen_bit_perm (map bit_inject flags),
        length-map flags bit_inject,
      )
