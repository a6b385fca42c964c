-- ===== src/Doram/GigaDoram/Bottom/Length.antt =====
-- The cleansed bottom level holds one entry for each address.
use gigadoram_rs.Base.{
  ℕ, zero, suc, ◌+◌, ◌*◌, ◌^◌, ◌≤◌, ◌<◌, ◌≡◌, refl, sym, ap, ◌∙◌, arith, List, [], ◌∷◌, map, some,
  Bool, true, false, leb, ◌==◌, length, take, resize, length-map, length-resize, length-take, inl,
  inr, Bool-cases, leb→le, ensure-eq-some, ==_iff, >>=-eq-some, ensure,
}
use gigadoram_rs.Primitives.Rep3.{zero_word}
use gigadoram_rs.Primitives.Value.{DoramValue, Record, get_y_values, get_alibis, from_columns}
use gigadoram_rs.Primitives.ArrayShuffle.{ArrayShuffler, forward}
use gigadoram_rs.Circuits.ObliviousSort.{sort}
use gigadoram_rs.Circuits.ObliviousSort.Length.{length-sort}
use gigadoram_rs.Doram.Config.{GigaDoramConfig}
use gigadoram_rs.Doram.GigaDoram.State.{bottom_num_elements, dummy_label}
use gigadoram_rs.Doram.GigaDoram.Bottom.{
  is_dummy, replace_if_dummy, dummy_labels, relabel_dummies, double_until, next_power_of_two,
  real_entries, cleanse_initial, cleanse_sorted, cleanse_bottom_level, finalize_bottom_level,
}

double_until-le : (fuel p n : ℕ) → 0 < p → n ≤ p + fuel → n ≤ double_until fuel p n
unfolding double_until
double_until-le zero p n pos h = omega arith
double_until-le (suc fuel) p n pos h = elim (Bool-cases (leb n p)) [
  | inl reached ↦ rw reached (leb→le n p reached)
  | inr more ↦ rw more (double_until-le fuel (2 * p) n (omega arith) (omega arith))
]

-- `next_power_of_two` reaches its argument.
pub next_power_of_two-le : (n : ℕ) → n ≤ next_power_of_two n
unfolding next_power_of_two
next_power_of_two-le n = double_until-le n 1 n (omega arith) (omega arith)

length-dummy_labels :
    (c : GigaDoramConfig) (i count : ℕ) (labels : List ℕ)
    → dummy_labels c i count ≡ some labels
    → length labels ≡ count
unfolding dummy_labels
length-dummy_labels c i zero labels h = let same : [] ≡ labels = cc in ap length (sym same)
length-dummy_labels c i (suc count) labels h =
    let (label, e, h') = >>=-eq-some (dummy_label c i) _ h in
    let (rest, e', h'') = >>=-eq-some (dummy_labels c (suc i) count) _ h' in
    let same : (label ∷ rest) ≡ labels = cc in
    ap length (sym same) ∙ ap suc (length-dummy_labels c (suc i) count rest e')

length-replace_if_dummy :
    (log_n : ℕ) (xs rs : List ℕ)
    → length xs ≡ length rs
    → length (replace_if_dummy log_n xs rs) ≡ length xs
length-replace_if_dummy log_n [] rs h = refl
length-replace_if_dummy log_n (x ∷ xs) [] h = absurd (omega arith)
length-replace_if_dummy log_n (x ∷ xs) (r ∷ rs) h =
    ap suc (length-replace_if_dummy log_n xs rs (omega arith))

pub length-relabel_dummies :
    (c : GigaDoramConfig) (xs out : List ℕ)
    → relabel_dummies c xs ≡ some out
    → length out ≡ length xs
unfolding relabel_dummies
length-relabel_dummies c xs out h =
    let (labels, e, h') = >>=-eq-some (dummy_labels c 0 (length xs)) _ h in
    let same : replace_if_dummy c.log_address_space_size xs labels ≡ out = cc in
    ap length (sym same)
    ∙ length-replace_if_dummy c.log_address_space_size xs labels
        (sym (length-dummy_labels c 0 (length xs) labels e))

module _ {V : Type 0} ⦃d : DoramValue V⦄ (c : GigaDoramConfig) where
  length-cleanse_initial :
      (xs out_xs : List ℕ) (ys out_ys : List (Record V))
      → cleanse_initial c xs ys ≡ some (out_xs, out_ys)
      → length out_xs ≡ bottom_num_elements c
  unfolding cleanse_initial
  length-cleanse_initial xs out_xs ys out_ys h =
      let real = real_entries c.log_address_space_size xs ys in
      let (u, e, h') = >>=-eq-some (ensure (leb (bottom_num_elements c) (length xs))) _ h in
      let (u', e', h'') = >>=-eq-some (ensure (length real == bottom_num_elements c)) _ h' in
      let same : map (λ e. e.0) real ≡ out_xs = cc in
      ap length (sym same) ∙ length-map real (λ e. e.0) ∙ (==_iff _ _).0 (ensure-eq-some _ e')

  length-cleanse_sorted :
      (perm xs out_xs : List ℕ) (ys out_ys : List (Record V))
      → bottom_num_elements c ≤ length xs
      → cleanse_sorted c perm xs ys ≡ some (out_xs, out_ys)
      → length out_xs ≡ bottom_num_elements c
  unfolding cleanse_sorted
  length-cleanse_sorted perm xs out_xs ys out_ys enough h =
      let log_n = c.log_address_space_size in
      let sort_len = next_power_of_two (length xs) in
      let flags = resize sort_len true (map (is_dummy log_n) xs) in
      let (xs1, e1, h1) = >>=-eq-some (sort perm 0 flags (resize sort_len (2 ^ log_n) xs)) _ h in
      let (vs1, e2, h2) =
        >>=-eq-some (sort perm d.zero_share flags (resize sort_len d.zero_share (get_y_values ys)))
          _ h1 in
      let (as1, e3, h3) =
        >>=-eq-some (sort perm zero_word flags (resize sort_len zero_word (get_alibis ys))) _ h2 in
      let (relabeled, e4, h4) =
        >>=-eq-some (relabel_dummies c (take (bottom_num_elements c) xs1)) _ h3 in
      let same : relabeled ≡ out_xs = cc in
      omega (
        arith,
        enough,
        ap length same,
        length-relabel_dummies c (take (bottom_num_elements c) xs1) relabeled e4,
        length-take (bottom_num_elements c) xs1,
        length-sort perm 0 flags (resize sort_len (2 ^ log_n) xs) xs1 e1,
        length-resize sort_len true (map (is_dummy log_n) xs),
        next_power_of_two-le (length xs),
      )

  length-cleanse_bottom_level :
      (had_initial : Bool) (perm xs out_xs : List ℕ) (ys out_ys : List (Record V))
      → (had_initial ≡ false → bottom_num_elements c ≤ length xs)
      → cleanse_bottom_level c had_initial perm xs ys ≡ some (out_xs, out_ys)
      → length out_xs ≡ bottom_num_elements c
  unfolding cleanse_bottom_level
  length-cleanse_bottom_level true perm xs out_xs ys out_ys enough h =
      let (u, e, h') = >>=-eq-some (ensure (length xs == length ys)) _ h in
      length-cleanse_initial xs out_xs ys out_ys h'
  length-cleanse_bottom_level false perm xs out_xs ys out_ys enough h =
      let (u, e, h') = >>=-eq-some (ensure (length xs == length ys)) _ h in
      length-cleanse_sorted perm xs out_xs ys out_ys (enough refl) h'

  -- A bottom cleanse that returns, from at least as many entries as the address space has addresses,
  -- leaves as many addresses as that, with and without an initial bottom level.
  pub length-finalize_bottom_level :
      (had_initial : Bool) (shuffler : ArrayShuffler) (perm xs out_xs : List ℕ)
      (ys out_ys : List (Record V))
      → bottom_num_elements c ≤ length xs
      → finalize_bottom_level c had_initial shuffler perm xs ys ≡ some (out_xs, out_ys)
      → length out_xs ≡ bottom_num_elements c
  unfolding finalize_bottom_level
  length-finalize_bottom_level false shuffler perm xs out_xs ys out_ys enough h =
      length-cleanse_bottom_level false perm xs out_xs ys out_ys (λ _. enough) h
  length-finalize_bottom_level true shuffler perm xs out_xs ys out_ys enough h =
      let (xs1, e1, h1) = >>=-eq-some (forward shuffler xs) _ h in
      let (values, e2, h2) = >>=-eq-some (forward shuffler (get_y_values ys)) _ h1 in
      let (alibis, e3, h3) = >>=-eq-some (forward shuffler (get_alibis ys)) _ h2 in
      length-cleanse_bottom_level true perm xs1 out_xs (from_columns values alibis) out_ys
        (λ no. cc) h3
