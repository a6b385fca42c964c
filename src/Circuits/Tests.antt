-- ===== src/Circuits/Tests.antt =====
-- The circuits' lemmas at concrete sharings.
use gigadoram_rs.Circuits.ChtLookup.{FancyBinary, all_true, evaluate_lookup_circuit}
use gigadoram_rs.Circuits.ChtLookup.Laws.{
  Fields, Sized, input_bits, selected, evaluate_lookup_circuit_lem,
}
use gigadoram_rs.Primitives.Rep3.{differ}
use gigadoram_rs.Base.{
  Bool, false, not, if◌then◌else◌, replicate, map, refl, ap, List, [], ◌∷◌, ℕ, ◌<◌, ◌≡◌, ◌↔◌, true,
  zero, suc, some, some-inj, none-some, get_elem?, arith, sym, ◌∙◌,
}
use gigadoram_rs.Circuits.ObliviousSort.{sort}
use gigadoram_rs.Circuits.ObliviousSort.Sorted.{IsPermutation, sort_lem}
use gigadoram_rs.Primitives.Rep3.{PartyId, id0, id1, id2, Word, ◌⊗◌, one_at, Shared, Opens}
use gigadoram_rs.Primitives.Rep3.Local.{local_backend, trivial_share, trivial_share-Opens}
use gigadoram_rs.Primitives.Utils.Laws.{correlated}
use gigadoram_rs.Circuits.Select.{
  rows, replace_if_dummy_circuit, xy_if_xs_equal_circuit, replace_if_dummy_circuit-Opens,
  xy_if_xs_equal_circuit-Opens,
}

abbrev shared : Word → Shared
shared v = λ id. trivial_share id v

abbrev seed : PartyId → Word
seed id0 = one_at 1
seed id1 = one_at 2
seed id2 = one_at 9

replace_if_dummy_circuit-Opens_example :
    Opens
      (replace_if_dummy_circuit local_backend (shared (one_at 4)) (shared (one_at 5)) 4)
      (one_at 5)
replace_if_dummy_circuit-Opens_example =
    replace_if_dummy_circuit-Opens local_backend (shared (one_at 4)) (shared (one_at 5)) (one_at 4)
      (one_at 5) 4 (trivial_share-Opens (one_at 4)) (trivial_share-Opens (one_at 5))

xy_if_xs_equal_circuit-Opens_example :
    let (row, found) =
      xy_if_xs_equal_circuit local_backend
        (shared (one_at 4))
        (shared (one_at 4))
        (shared (one_at 7))
        (shared (one_at 0))
        (λ k. correlated seed)
        (rows seed seed seed) in
    (b : Word) × Opens found b
    × ((b 0 ≡ true) ↔ ((i : ℕ) → i < 32 → one_at 4 i ≡ one_at 4 i))
    × Opens row.x ((λ i. b 0) ⊗ one_at 4)
    × Opens row.y ((λ i. b 0) ⊗ one_at 7)
    × Opens row.alibi ((λ i. b 0) ⊗ one_at 0)
xy_if_xs_equal_circuit-Opens_example =
    xy_if_xs_equal_circuit-Opens local_backend (shared (one_at 4)) (shared (one_at 4))
      (shared (one_at 7)) (shared (one_at 0)) (one_at 4) (one_at 4) (one_at 7) (one_at 0)
      (λ k. seed) seed seed seed (trivial_share-Opens (one_at 4)) (trivial_share-Opens (one_at 4))
      (trivial_share-Opens (one_at 7)) (trivial_share-Opens (one_at 0))

-- The circuit on bits.
abbrev plain_bits : FancyBinary
plain_bits = record {
  Item = Bool;
  xor = differ;
  negate = not;
  and_many = all_true;
  mux = λ b x y. if b then y else x;
  decode = λ b. b;
  decode_xor = λ x y. refl;
  decode_negate = λ x. refl;
  decode_and_many = λ xs. ap all_true (same xs);
  decode_mux = λ b x y. refl;
}
  where
    same : (xs : List Bool) → xs ≡ map (λ b. b) xs
    same [] = refl
    same (x ∷ xs) = ap (λ ys. x ∷ ys) (same xs)

-- The second location has the key's tag.
abbrev second_matches : Fields
second_matches = record {
  key_tag = replicate 96 true;
  b0_index = replicate 32 true;
  b0_tag = replicate 96 false;
  b1_index = replicate 32 false;
  b1_tag = replicate 96 true;
  dummy_index = replicate 32 true;
}

second_matches-Sized : Sized second_matches
second_matches-Sized = record {
  key_tag = refl;
  b0_index = refl;
  b0_tag = refl;
  b1_index = refl;
  b1_tag = refl;
  dummy_index = refl;
}

evaluate_lookup_circuit_lem_example :
    map plain_bits.decode
      (evaluate_lookup_circuit plain_bits (input_bits second_matches) (replicate 384 false))
    ≡ selected second_matches
evaluate_lookup_circuit_lem_example =
    evaluate_lookup_circuit_lem plain_bits (input_bits second_matches) (replicate 384 false)
      second_matches second_matches-Sized refl

-- Three rows, opened in another order.
abbrev three_flags : List Bool
three_flags = true ∷ false ∷ true ∷ []

abbrev three_rows : List ℕ
three_rows = 70 ∷ 80 ∷ 90 ∷ []

abbrev turned : List ℕ
turned = 2 ∷ 0 ∷ 1 ∷ []

turned-IsPermutation : IsPermutation 3 turned
turned-IsPermutation = record { small = small; once = once; cover = cover }
  where
    small : (k i : ℕ) → get_elem? turned k ≡ some i → i < 3
    small zero i h = omega (arith, some-inj h)
    small (suc zero) i h = omega (arith, some-inj h)
    small (suc (suc zero)) i h = omega (arith, some-inj h)
    small (suc (suc (suc k))) i h = absurd (none-some h)

    inverse : (k y : ℕ) → get_elem? turned k ≡ some y → get_elem? (1 ∷ 2 ∷ 0 ∷ []) y ≡ some k
    inverse zero y h = ap (get_elem? (1 ∷ 2 ∷ 0 ∷ [])) (sym (some-inj h))
    inverse (suc zero) y h = ap (get_elem? (1 ∷ 2 ∷ 0 ∷ [])) (sym (some-inj h))
    inverse (suc (suc zero)) y h = ap (get_elem? (1 ∷ 2 ∷ 0 ∷ [])) (sym (some-inj h))
    inverse (suc (suc (suc k))) y h = absurd (none-some h)

    once : (k k' y : ℕ) → get_elem? turned k ≡ some y → get_elem? turned k' ≡ some y → k ≡ k'
    once k k' y h h' = some-inj (sym (inverse k y h) ∙ inverse k' y h')

    cover : (i : ℕ) → i < 3 → (k : ℕ) × (get_elem? turned k ≡ some i)
    cover zero lt = (1, refl)
    cover (suc zero) lt = (2, refl)
    cover (suc (suc zero)) lt = (0, refl)
    cover (suc (suc (suc i))) lt = absurd (omega (arith, lt))

sort_lem_example : sort turned 0 three_flags three_rows ≡ some (80 ∷ 70 ∷ 90 ∷ [])
sort_lem_example = sort_lem turned 0 three_flags three_rows turned-IsPermutation refl (omega arith)
