-- ===== src/Doram/GigaDoram/Bottom/Kept.antt =====
-- The cleanse of a bottom level without an initial one keeps the real entries, in their order.
use gigadoram_rs.Base.{
  ℕ, zero, suc, ◌+◌, ◌^◌, ◌<◌, ◌≤◌, ◌≡◌, refl, sym, ap, ap₂, subst, ◌∙◌, arith, List, [], ◌∷◌, ◌++◌,
  map, some, Bool, true, false, lt→ltb, ==_iff, if◌then◌else◌, length, take, resize, length-map,
  length-resize, length-take, Bool-cases, inl, inr,
}
use gigadoram_rs.Base.Powers.{two_pow_le, two_pow_add}
use gigadoram_rs.Primitives.Rep3.{Word, zero_word}
use gigadoram_rs.Primitives.Value.{DoramValue, Record, get_y_values, get_alibis, from_columns}
use gigadoram_rs.Primitives.ArrayShuffle.{ArrayShuffler}
use gigadoram_rs.Circuits.ObliviousSort.{sort}
use gigadoram_rs.Circuits.ObliviousSort.Positions.{real_rows, dummy_rows}
use gigadoram_rs.Circuits.ObliviousSort.Sorted.{IsPermutation, sort_lem}
use gigadoram_rs.Doram.Config.{GigaDoramConfig}
use gigadoram_rs.Doram.GigaDoram.State.{bottom_num_elements, dummy_label}
use gigadoram_rs.Doram.GigaDoram.Bottom.{
  is_dummy, replace_if_dummy, dummy_labels, relabel_dummies, next_power_of_two, real_entries,
  cleanse_sorted, cleanse_bottom_level, finalize_bottom_level,
}
use gigadoram_rs.Doram.GigaDoram.Bottom.Length.{next_power_of_two-le}

-- Padding with flagged rows adds no row without the flag.
real_rows-resize :
    {A : Type 0} (n : ℕ) (flags : List Bool) (rows : List A) (a : A)
    → length rows ≡ length flags
    → length flags ≤ n
    → real_rows (resize n true flags) (resize n a rows) ≡ real_rows flags rows
real_rows-resize zero [] rows a same fits = refl
real_rows-resize zero (f ∷ fs) rows a same fits = absurd (omega (arith, fits))
real_rows-resize (suc n) [] [] a same fits = real_rows-resize n [] [] a refl (omega arith)
real_rows-resize (suc n) [] (row ∷ rows) a same fits = absurd (omega (arith, same))
real_rows-resize (suc n) (f ∷ fs) [] a same fits = absurd (omega (arith, same))
real_rows-resize (suc n) (false ∷ fs) (row ∷ rows) a same fits =
    ap (λ rs. row ∷ rs) (real_rows-resize n fs rows a (omega (arith, same)) (omega (arith, fits)))
real_rows-resize (suc n) (true ∷ fs) (row ∷ rows) a same fits =
    real_rows-resize n fs rows a (omega (arith, same)) (omega (arith, fits))

-- The rows without the flag are the columns of the real entries.
real_rows-xs :
    {B : Type 0} (log_n : ℕ) (xs : List ℕ) (ys : List B)
    → length xs ≡ length ys
    → real_rows (map (is_dummy log_n) xs) xs ≡ map (λ e. e.0) (real_entries log_n xs ys)
real_rows-xs log_n [] ys same = refl
real_rows-xs log_n (x ∷ xs) [] same = absurd (omega (arith, same))
real_rows-xs log_n (x ∷ xs) (y ∷ ys) same = elim (Bool-cases (is_dummy log_n x)) [
  | inl dummy ↦ rw dummy (real_rows-xs log_n xs ys (omega (arith, same)))
  | inr real ↦ rw real (ap (λ rs. x ∷ rs) (real_rows-xs log_n xs ys (omega (arith, same))))
]

real_rows-ys :
    {B C : Type 0} (f : B → C) (log_n : ℕ) (xs : List ℕ) (ys : List B)
    → length xs ≡ length ys
    → real_rows (map (is_dummy log_n) xs) (map f ys) ≡ map (λ e. f e.1) (real_entries log_n xs ys)
real_rows-ys f log_n [] ys same = refl
real_rows-ys f log_n (x ∷ xs) [] same = absurd (omega (arith, same))
real_rows-ys f log_n (x ∷ xs) (y ∷ ys) same = elim (Bool-cases (is_dummy log_n x)) [
  | inl dummy ↦ rw dummy (real_rows-ys f log_n xs ys (omega (arith, same)))
  | inr real ↦ rw real (ap (λ rs. f y ∷ rs) (real_rows-ys f log_n xs ys (omega (arith, same))))
]

-- Entries of which none is a dummy.
abbrev AllReal : {B : Type 0} → ℕ → List (ℕ × B) → Type 0
AllReal log_n [] = Unit {0}
AllReal log_n (e ∷ es) = (is_dummy log_n e.0 ≡ false) × AllReal log_n es

real_entries-AllReal :
    {B : Type 0} (log_n : ℕ) (xs : List ℕ) (ys : List B) → AllReal log_n (real_entries log_n xs ys)
real_entries-AllReal log_n [] ys = tt
real_entries-AllReal log_n (x ∷ xs) [] = tt
real_entries-AllReal log_n (x ∷ xs) (y ∷ ys) = elim (Bool-cases (is_dummy log_n x)) [
  | inl dummy ↦ rw dummy (real_entries-AllReal log_n xs ys)
  | inr real ↦ rw real (real, real_entries-AllReal log_n xs ys)
]

-- Real addresses at the front stay, whatever the labels are.
replace_if_dummy-prefix :
    {B : Type 0} (log_n n : ℕ) (es : List (ℕ × B)) (rest labels : List ℕ)
    → AllReal log_n es
    → length es ≤ n
    → length labels ≡ length (take n (map (λ e. e.0) es ++ rest))
    → take (length es) (replace_if_dummy log_n (take n (map (λ e. e.0) es ++ rest)) labels)
      ≡ map (λ e. e.0) es
replace_if_dummy-prefix log_n n [] rest labels real fits same = refl
replace_if_dummy-prefix log_n zero (e ∷ es) rest labels real fits same =
    absurd (omega (arith, fits))
replace_if_dummy-prefix log_n (suc n) (e ∷ es) rest [] real fits same = absurd (omega (arith, same))
replace_if_dummy-prefix log_n (suc n) (e ∷ es) rest (l ∷ labels) (real, others) fits same =
    ap₂ (λ (x : ℕ) xs. x ∷ xs) (ap (λ b. if b then l else e.0) real)
      (replace_if_dummy-prefix log_n n es rest labels others (omega (arith, fits))
        (omega (arith, same)))

from_columns-prefix :
    {V : Type 0} (n : ℕ) (es : List (ℕ × Record V)) (vs : List V) (ws : List Word)
    → length es ≤ n
    → take (length es) (
        from_columns
          (take n (map (λ e. e.1.value) es ++ vs))
          (take n (map (λ e. e.1.alibi) es ++ ws)))
      ≡ map (λ e. e.1) es
from_columns-prefix n [] vs ws fits = refl
from_columns-prefix zero (e ∷ es) vs ws fits = absurd (omega (arith, fits))
from_columns-prefix (suc n) (e ∷ es) vs ws fits =
    ap (λ rs. e.1 ∷ rs) (from_columns-prefix n es vs ws (omega (arith, fits)))

-- The labels that fit the address type.
dummy_labels_lem :
    (c : GigaDoramConfig) (i count : ℕ)
    → 2 ^ c.log_address_space_size + (i + count) ≤ 2 ^ 32
    → (labels : List ℕ) × (dummy_labels c i count ≡ some labels) × (length labels ≡ count)
unfolding dummy_labels dummy_label
dummy_labels_lem c i zero fits = ([], refl, refl)
dummy_labels_lem c i (suc count) fits =
    let (rest, e, same) = dummy_labels_lem c (suc i) count (omega (arith, fits)) in
    (
      (2 ^ c.log_address_space_size + i) ∷ rest,
      rw (lt→ltb (2 ^ c.log_address_space_size + i) (2 ^ 32) (omega (arith, fits)), e) refl,
      ap suc same,
    )

module _ {V : Type 0} ⦃d : DoramValue V⦄ (c : GigaDoramConfig) (shuffler : ArrayShuffler)
    (perm xs : List ℕ) (ys : List (Record V)) (same : length xs ≡ length ys)
    (shuffled : IsPermutation (next_power_of_two (length xs)) perm)
    (small : next_power_of_two (length xs) < 2 ^ 32) (labels_fit : c.log_address_space_size < 32)
    (fits : length (real_entries c.log_address_space_size xs ys) ≤ bottom_num_elements c) where
  abbrev real : List (ℕ × Record V)
  real = real_entries c.log_address_space_size xs ys

  abbrev sort_len : ℕ
  sort_len = next_power_of_two (length xs)

  abbrev flags : List Bool
  flags = resize sort_len true (map (is_dummy c.log_address_space_size) xs)

  -- A sorted column: the real entries' part, and the rest.
  column :
      {A : Type 0} (zero_row a : A) (rows : List A)
      → length rows ≡ length xs
      → sort perm zero_row flags (resize sort_len a rows)
        ≡ some (
            real_rows (map (is_dummy c.log_address_space_size) xs) rows
            ++ dummy_rows flags (resize sort_len a rows))
  column zero_row a rows sized =
      let marks = map (is_dummy c.log_address_space_size) xs in
      let marked = length-map xs (is_dummy c.log_address_space_size) in
      let flagged = length-resize sort_len true marks in
      sort_lem perm zero_row flags (resize sort_len a rows)
        (subst (λ (n : ℕ). IsPermutation n perm) (sym flagged) shuffled)
        (length-resize sort_len a rows ∙ sym flagged) (omega (arith, flagged, small))
      ∙ ap (λ rs. some (rs ++ dummy_rows flags (resize sort_len a rows)))
          (real_rows-resize sort_len marks rows a (sized ∙ sym marked)
            (omega (arith, marked, next_power_of_two-le (length xs))))

  abbrev rest_xs : List ℕ
  rest_xs = dummy_rows flags (resize sort_len (2 ^ c.log_address_space_size) xs)

  abbrev rest_values : List V
  rest_values = dummy_rows flags (resize sort_len d.zero_share (get_y_values ys))

  abbrev rest_alibis : List Word
  rest_alibis = dummy_rows flags (resize sort_len zero_word (get_alibis ys))

  sorted_xs :
      sort perm 0 flags (resize sort_len (2 ^ c.log_address_space_size) xs)
      ≡ some (map (λ e. e.0) real ++ rest_xs)
  sorted_xs =
      column 0 (2 ^ c.log_address_space_size) xs refl
      ∙ ap (λ rs. some (rs ++ rest_xs)) (real_rows-xs c.log_address_space_size xs ys same)

  sorted_values :
      sort perm d.zero_share flags (resize sort_len d.zero_share (get_y_values ys))
      ≡ some (map (λ e. e.1.value) real ++ rest_values)
  sorted_values =
      column d.zero_share d.zero_share (get_y_values ys)
        (length-map ys (λ (r : Record V). r.value) ∙ sym same)
      ∙ ap (λ rs. some (rs ++ rest_values))
          (real_rows-ys (λ (r : Record V). r.value) c.log_address_space_size xs ys same)

  sorted_alibis :
      sort perm zero_word flags (resize sort_len zero_word (get_alibis ys))
      ≡ some (map (λ e. e.1.alibi) real ++ rest_alibis)
  sorted_alibis =
      column zero_word zero_word (get_alibis ys)
        (length-map ys (λ (r : Record V). r.alibi) ∙ sym same)
      ∙ ap (λ rs. some (rs ++ rest_alibis))
          (real_rows-ys (λ (r : Record V). r.alibi) c.log_address_space_size xs ys same)

  abbrev cut_xs : List ℕ
  cut_xs = take (bottom_num_elements c) (map (λ e. e.0) real ++ rest_xs)

  labelled :
      (labels : List ℕ) × (dummy_labels c 0 (length cut_xs) ≡ some labels)
      × (length labels ≡ length cut_xs)
  labelled = dummy_labels_lem c 0 (length cut_xs) (
      omega (
        arith,
        length-take (bottom_num_elements c) (map (λ e. e.0) real ++ rest_xs),
        two_pow_add c.log_address_space_size 1,
        two_pow_le (c.log_address_space_size + 1) 32 (omega (arith, labels_fit)),
      ))

  -- Without an initial bottom level the cleanse of the bottom level succeeds, and what it returns
  -- begins with the entries whose address is not a dummy, in the order in which they came, each with
  -- its own record, whatever permutation the sort is run under. There are as many addresses as
  -- records, no more real entries than addresses in the address space, and fewer rows than ring
  -- elements.
  pub finalize_bottom_level-real_entries :
      (out_xs : List ℕ) × (out_ys : List (Record V)) × (finalize_bottom_level c false shuffler perm
          xs ys
        ≡ some (out_xs, out_ys))
      × (take (length (real_entries c.log_address_space_size xs ys)) out_xs
          ≡ map (λ e. e.0) (real_entries c.log_address_space_size xs ys))
      × (take (length (real_entries c.log_address_space_size xs ys)) out_ys
          ≡ map (λ e. e.1) (real_entries c.log_address_space_size xs ys))
  unfolding finalize_bottom_level cleanse_bottom_level cleanse_sorted relabel_dummies
  finalize_bottom_level-real_entries =
      let (labels, made, sized) = labelled in
      (
        replace_if_dummy c.log_address_space_size cut_xs labels,
        from_columns (take (bottom_num_elements c) (map (λ e. e.1.value) real ++ rest_values))
            (take (bottom_num_elements c) (map (λ e. e.1.alibi) real ++ rest_alibis)),
        rw ((==_iff _ _).1 same, sorted_xs, sorted_values, sorted_alibis, made) refl,
        replace_if_dummy-prefix c.log_address_space_size (bottom_num_elements c) real rest_xs labels
            (real_entries-AllReal c.log_address_space_size xs ys) fits sized,
        from_columns-prefix (bottom_num_elements c) real rest_values rest_alibis fits,
      )
