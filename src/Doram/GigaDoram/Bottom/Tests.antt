-- ===== src/Doram/GigaDoram/Bottom/Tests.antt =====
-- The cleanse of the bottom level at a concrete input.
use gigadoram_rs.Base.{
  ℕ, zero, suc, ◌<◌, ◌≡◌, refl, sym, ap, ◌∙◌, arith, List, [], ◌∷◌, some, some-inj, none-some,
  false, length, take, get_elem?,
}
use gigadoram_rs.Primitives.Value.{Record, ring_value, from_value}
use gigadoram_rs.Primitives.Permutation.{from_fisher_yates}
use gigadoram_rs.Primitives.ArrayShuffle.{ArrayShuffler}
use gigadoram_rs.Doram.Config.{GigaDoramConfig, empirical}
use gigadoram_rs.Doram.GigaDoram.Bottom.{finalize_bottom_level, next_power_of_two}
use gigadoram_rs.Circuits.ObliviousSort.Sorted.{IsPermutation}
use gigadoram_rs.Doram.GigaDoram.Bottom.Kept.{finalize_bottom_level-real_entries}
use gigadoram_rs.Doram.GigaDoram.Bottom.Length.{length-finalize_bottom_level}

abbrev four : GigaDoramConfig
four = record {
  log_address_space_size = 2;
  num_levels = 2;
  log_speed_cache_size = 1;
  log_amp_factor = 1;
  stash_size = 1;
  cht_bounds = empirical;
}

abbrev no_shuffle : ArrayShuffler
no_shuffle = record { next_shared_perm = λ id. from_fisher_yates [] }

abbrev entries : List (Record ℕ)
entries = from_value 0 ∷ from_value 30 ∷ from_value 7 ∷ from_value 0 ∷ []

abbrev cleansed : List (Record ℕ)
cleansed = from_value 30 ∷ from_value 7 ∷ from_value 0 ∷ from_value 0 ∷ []

abbrev relabeled : List ℕ
relabeled = 3 ∷ 0 ∷ 6 ∷ 7 ∷ []

cleanse_run :
    finalize_bottom_level four false no_shuffle (2 ∷ 0 ∷ 3 ∷ 1 ∷ []) (4 ∷ 3 ∷ 0 ∷ 4 ∷ []) entries
    ≡ some (relabeled, cleansed)
unfolding finalize_bottom_level
cleanse_run = refl

length-finalize_bottom_level_example : length relabeled ≡ 4
length-finalize_bottom_level_example =
    length-finalize_bottom_level four false no_shuffle (2 ∷ 0 ∷ 3 ∷ 1 ∷ []) (4 ∷ 3 ∷ 0 ∷ 4 ∷ [])
      relabeled entries cleansed (omega arith) cleanse_run

abbrev mixed : List ℕ
mixed = 2 ∷ 0 ∷ 3 ∷ 1 ∷ []

mixed-IsPermutation : IsPermutation 4 mixed
mixed-IsPermutation = record { small = small; once = once; cover = cover }
  where
    small : (k i : ℕ) → get_elem? mixed k ≡ some i → i < 4
    small zero i h = omega (arith, some-inj h)
    small (suc zero) i h = omega (arith, some-inj h)
    small (suc (suc zero)) i h = omega (arith, some-inj h)
    small (suc (suc (suc zero))) i h = omega (arith, some-inj h)
    small (suc (suc (suc (suc k)))) i h = absurd (none-some h)

    inverse : (k y : ℕ) → get_elem? mixed k ≡ some y → get_elem? (1 ∷ 3 ∷ 0 ∷ 2 ∷ []) y ≡ some k
    inverse zero y h = ap (get_elem? (1 ∷ 3 ∷ 0 ∷ 2 ∷ [])) (sym (some-inj h))
    inverse (suc zero) y h = ap (get_elem? (1 ∷ 3 ∷ 0 ∷ 2 ∷ [])) (sym (some-inj h))
    inverse (suc (suc zero)) y h = ap (get_elem? (1 ∷ 3 ∷ 0 ∷ 2 ∷ [])) (sym (some-inj h))
    inverse (suc (suc (suc zero))) y h = ap (get_elem? (1 ∷ 3 ∷ 0 ∷ 2 ∷ [])) (sym (some-inj h))
    inverse (suc (suc (suc (suc k)))) y h = absurd (none-some h)

    once : (k k' y : ℕ) → get_elem? mixed k ≡ some y → get_elem? mixed k' ≡ some y → k ≡ k'
    once k k' y h h' = some-inj (sym (inverse k y h) ∙ inverse k' y h')

    cover : (i : ℕ) → i < 4 → (k : ℕ) × (get_elem? mixed k ≡ some i)
    cover zero lt = (1, refl)
    cover (suc zero) lt = (3, refl)
    cover (suc (suc zero)) lt = (0, refl)
    cover (suc (suc (suc zero))) lt = (2, refl)
    cover (suc (suc (suc (suc i)))) lt = absurd (omega (arith, lt))

finalize_bottom_level-real_entries_example :
    (out_xs : List ℕ) × (out_ys : List (Record ℕ)) × (finalize_bottom_level four false no_shuffle
        mixed
        (4 ∷ 3 ∷ 0 ∷ 4 ∷ [])
        entries
      ≡ some (out_xs, out_ys))
    × (take 2 out_xs ≡ 3 ∷ 0 ∷ [])
    × (take 2 out_ys ≡ from_value 30 ∷ from_value 7 ∷ [])
unfolding next_power_of_two
finalize_bottom_level-real_entries_example =
    finalize_bottom_level-real_entries four no_shuffle mixed (4 ∷ 3 ∷ 0 ∷ 4 ∷ []) entries refl
      mixed-IsPermutation (omega arith) (omega arith) (omega arith)
