-- ===== src/Doram/GigaDoram/Bottom.antt =====
-- The bottom level's rebuild: `relabel_dummies`, `cleanse_bottom_level` and
-- `finalize_bottom_level`, on opened values. `none` is an error or a failed assertion.
pub mod Length
pub mod Kept
mod Tests
use gigadoram_rs.Base.{
  ℕ, zero, suc, ◌*◌, ◌/◌, ◌%◌, ◌^◌, List, [], ◌∷◌, map, Option, some, Bool, true, false, leb, ◌==◌,
  if◌then◌else◌, length, take, resize, ◌>>=◌, ◌>>◌, ensure,
}
use gigadoram_rs.Primitives.Rep3.{zero_word}
use gigadoram_rs.Primitives.Value.{DoramValue, Record, get_y_values, get_alibis, from_columns}
use gigadoram_rs.Primitives.ArrayShuffle.{ArrayShuffler, forward}
use gigadoram_rs.Circuits.ObliviousSort.{sort}
use gigadoram_rs.Doram.Config.{GigaDoramConfig}
use gigadoram_rs.Doram.GigaDoram.State.{bottom_num_elements, dummy_label}

-- Bit `log_n` of an address.
abbrev pub is_dummy : ℕ → ℕ → Bool
is_dummy log_n x = (x / 2 ^ log_n % 2) == 1

-- `replace_if_dummy_circuit` with a list of replacements.
abbrev pub replace_if_dummy : ℕ → List ℕ → List ℕ → List ℕ
replace_if_dummy log_n [] replacements = []
replace_if_dummy log_n (x ∷ xs) [] = []
replace_if_dummy log_n (x ∷ xs) (r ∷ rs) =
    (if is_dummy log_n x then r else x) ∷ replace_if_dummy log_n xs rs

-- `dummy_label(i)` for `count` positions from `i` on.
unfoldable pub dummy_labels : GigaDoramConfig → ℕ → ℕ → Option (List ℕ)
unfolding dummy_label
dummy_labels c i zero = some []
dummy_labels c i (suc count) = do
  label ← dummy_label c i
  rest ← dummy_labels c (suc i) count
  some (label ∷ rest)

unfoldable pub relabel_dummies : GigaDoramConfig → List ℕ → Option (List ℕ)
unfolding dummy_labels
relabel_dummies c xs = do
  replacements ← dummy_labels c 0 (length xs)
  some (replace_if_dummy c.log_address_space_size xs replacements)

-- The entries whose address is not a dummy.
abbrev pub real_entries : {A : Type 0} → ℕ → List ℕ → List A → List (ℕ × A)
real_entries log_n [] ys = []
real_entries log_n (x ∷ xs) [] = []
real_entries log_n (x ∷ xs) (y ∷ ys) =
    let rest = real_entries log_n xs ys in if is_dummy log_n x then rest else ((x, y) ∷ rest)

double_until : ℕ → ℕ → ℕ → ℕ
double_until zero p n = p
double_until (suc fuel) p n = let rest = double_until fuel (2 * p) n in if leb n p then p else rest

-- `n` doublings of 1 reach `n`.
unfoldable pub next_power_of_two : ℕ → ℕ
unfolding double_until
next_power_of_two n = double_until n 1 n

module _ {V : Type 0} ⦃d : DoramValue V⦄ where
  -- The branch of a hierarchy that started with every address: drop the dummies.
  unfoldable pub cleanse_initial :
      GigaDoramConfig → List ℕ → List (Record V) → Option (List ℕ × List (Record V))
  cleanse_initial c xs ys = do
    ensure (leb (bottom_num_elements c) (length xs))
    let real = real_entries c.log_address_space_size xs ys
    ensure (length real == bottom_num_elements c)
    some (map (λ e. e.0) real, map (λ e. e.1) real)

  -- The other branch: dummies to the end by the sort under the permutation `perm`.
  unfoldable pub cleanse_sorted :
      GigaDoramConfig → List ℕ → List ℕ → List (Record V) → Option (List ℕ × List (Record V))
  unfolding sort next_power_of_two relabel_dummies
  cleanse_sorted c perm xs ys = do
    let log_n = c.log_address_space_size
    let sort_len = next_power_of_two (length xs)
    let flags = resize sort_len true (map (is_dummy log_n) xs)
    let sorted_xs = resize sort_len (2 ^ log_n) xs
    let values = resize sort_len d.zero_share (get_y_values ys)
    let alibis = resize sort_len zero_word (get_alibis ys)
    xs' ← sort perm 0 flags sorted_xs
    values' ← sort perm d.zero_share flags values
    alibis' ← sort perm zero_word flags alibis
    let n = bottom_num_elements c
    relabeled ← relabel_dummies c (take n xs')
    some (relabeled, from_columns (take n values') (take n alibis'))

  unfoldable pub cleanse_bottom_level :
      GigaDoramConfig → Bool → List ℕ → List ℕ → List (Record V) → Option (List ℕ × List (Record V))
  unfolding cleanse_initial cleanse_sorted
  cleanse_bottom_level c had_initial perm xs ys = do
    ensure (length xs == length ys)
    if had_initial then cleanse_initial c xs ys else cleanse_sorted c perm xs ys

  unfoldable pub finalize_bottom_level :
      GigaDoramConfig
      → Bool
      → ArrayShuffler
      → List ℕ
      → List ℕ
      → List (Record V)
      → Option (List ℕ × List (Record V))
  unfolding forward cleanse_bottom_level
  finalize_bottom_level c false shuffler perm xs ys = cleanse_bottom_level c false perm xs ys
  finalize_bottom_level c true shuffler perm xs ys = do
    xs' ← forward shuffler xs
    values ← forward shuffler (get_y_values ys)
    alibis ← forward shuffler (get_alibis ys)
    cleanse_bottom_level c true perm xs' (from_columns values alibis)
