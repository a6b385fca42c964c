-- ===== src/DataStructures/OhTable/Steps.antt =====
-- The steps of a build: the stash names different entries, and placing it marks them.
use gigadoram_rs.Base.{
  some-inj, ℕ, zero, suc, ◌^◌, ◌≤◌, ◌≡◌, ◌≢◌, refl, sym, ap, subst, ◌∙◌, arith, List, some, true,
  false, ◌==◌, ==_iff, length, replicate, length-replicate, get_elem?, count_true,
  count_true-replicate-false, ensure, >>=-eq-some, ensure-eq-some,
}
use gigadoram_rs.Primitives.Permutation.{LocalPermutation, shuffle, sample_from_rng}
use gigadoram_rs.Primitives.Permutation.Inverse
use gigadoram_rs.Primitives.Permutation.Inverse.{shuffle_lem}
use gigadoram_rs.Primitives.Permutation.Evaluate.{sample_from_rng-IsValid}
use gigadoram_rs.DataStructures.Cht.{build}
use gigadoram_rs.DataStructures.Cht.Build.{Finds-of_build}
use gigadoram_rs.DataStructures.OhTable.Params.{total_size}
use gigadoram_rs.DataStructures.OhTable.Table.{
  OhTable, Draws, Stash, compact, build_cht, receiver_indices, place_indices, place_stash,
}
use gigadoram_rs.DataStructures.OhTable.Distinct.{
  Distinct, compact-DistinctLow, shuffle-DistinctLow, Finds-Distinct,
}
use gigadoram_rs.DataStructures.OhTable.Stash.{
  Unmarked, receiver_indices_lem, receiver_indices-Distinct, place_indices_lem,
}
use gigadoram_rs.DataStructures.OhTable.Valid.{IsTable}

-- A shuffle that succeeds keeps the length.
pub length-shuffle :
    {A : Type 0} (n : ℕ) (draws : Draws) (xs : List A) {ys : List A}
    → shuffle (sample_from_rng n draws.draw) xs ≡ some ys
    → (length xs ≡ n) × (length ys ≡ n)
unfolding shuffle sample_from_rng
length-shuffle n draws xs h =
    let (_, same, _) = >>=-eq-some (ensure (length xs == n)) _ h in
    let fits = (==_iff (length xs) n).0 (ensure-eq-some _ same) in
    let (zs, made, l, _) =
      shuffle_lem (sample_from_rng n draws.draw) (sample_from_rng-IsValid n draws.draw draws.bound)
        xs fits in
    (fits, ap length (some-inj (sym h ∙ made)) ∙ l)

no_true : (n y : ℕ) → get_elem? (replicate n false) y ≢ some true
no_true zero y h = cc
no_true (suc n) zero h = cc
no_true (suc n) (suc y) h = no_true n y h

abbrev placed_table :
    {V Key : Type 0} → OhTable V Key → List ℕ → LocalPermutation → Stash V → OhTable V Key
placed_table t stash perm s = record t {
  builder_stash_indices = stash;
  touched = s.touched;
  stash_xs = s.stash_xs;
  stash_ys = s.stash_ys;
  receiver_shuffle = some perm;
}

module _ {V Key : Type 0} where
  -- The stash that the builder names lists different entries.
  pub build_cht-Distinct :
      (t : OhTable V Key) (draws : Draws) {t' : OhTable V Key} {stash : List ℕ}
      → build_cht t draws ≡ some (t', stash)
      → length t.qs_builder_order ≤ 2 ^ 32
      → t.params.stash_size ≤ t.params.num_elements
      → Distinct stash
        × (length stash ≡ t.params.stash_size)
        × ((table : ℕ → ℕ) × (t' ≡ record t { cht_2shares = table }))
  unfolding build_cht sample_from_rng
  build_cht-Distinct t draws {t' = t'} {stash = stash} h small room =
      let perm = sample_from_rng t.params.num_elements draws.draw in
      let blocks = compact 0 t.qs_builder_order in
      let (compacted, shuffled, h1) = >>=-eq-some (shuffle perm blocks) _ h in
      let ((table, stashed), built, h2) =
        >>=-eq-some (build t.params.stash_size t.params.log_single_col_len compacted) _ h1 in
      let (fits, fits') = length-shuffle t.params.num_elements draws blocks shuffled in
      let finds =
        Finds-of_build t.params.stash_size t.params.log_single_col_len compacted built
          (omega (arith, fits', room)) in
      let apart =
        shuffle-DistinctLow perm blocks compacted
          (sample_from_rng-IsValid t.params.num_elements draws.draw draws.bound)
          (permutes blocks fits) shuffled
          (compact-DistinctLow 0 t.qs_builder_order (omega (arith, small))) in
      let pair = some-inj h2 in
      let same : stashed ≡ stash = ap (λ out. out.1) pair in
      (
        subst Distinct same (
            Finds-Distinct t.params.log_single_col_len compacted t.params.stash_size table stashed
              finds apart),
        ap length (sym same) ∙ finds.size,
        (table, ap (λ out. out.0) (sym pair)),
      )
    where
      permutes :
          (xs : List ℕ)
          → length xs ≡ t.params.num_elements
          → length xs ≡ (sample_from_rng t.params.num_elements draws.draw).n
      permutes xs e = e

  -- Placing the stash in a table with no mark.
  pub place_stash-IsTable :
      (t : OhTable V Key) (stash : List ℕ) (perm : LocalPermutation) {t' : OhTable V Key}
      → place_stash t stash perm ≡ some t'
      → Distinct stash
      → length stash ≡ t.params.stash_size
      → Inverse.IsValid perm
      → t.touched ≡ replicate (total_size t.params) false
      → t.query_count ≡ 0
      → length t.xs_receiver_order ≡ total_size t.params
      → length t.ys_receiver_order ≡ total_size t.params
      → length t.stash_xs ≡ t.params.stash_size
      → length t.stash_ys ≡ t.params.stash_size
      → t.params.stash_size ≤ t.params.num_elements
      → IsTable t' × (t'.params ≡ t.params) × (t'.key ≡ t.key) × (t'.query_count ≡ 0)
  unfolding place_stash
  place_stash-IsTable t stash perm h apart size v clear none_yet lx ly sx sy room =
      let ((indices, perm'), evaluated, h1) = >>=-eq-some (receiver_indices stash perm) _ h in
      let (s, placed, h2) =
        >>=-eq-some
          (place_indices t.xs_receiver_order t.ys_receiver_order 0 indices
            (record { touched = t.touched; stash_xs = t.stash_xs; stash_ys = t.stash_ys }))
          _ h1 in
      let (_, _, _, l, _) = receiver_indices_lem stash perm v evaluated in
      let (marks, xs, ys, count) =
        place_indices_lem t.xs_receiver_order t.ys_receiver_order 0 indices
          (record { touched = t.touched; stash_xs = t.stash_xs; stash_ys = t.stash_ys }) placed
          (receiver_indices-Distinct stash perm v evaluated apart) (unmarked indices) in
      let zeros = ap length clear ∙ length-replicate (total_size t.params) false in
      let no_marks = ap count_true clear ∙ count_true-replicate-false (total_size t.params) in
      let built : IsTable (placed_table t stash perm' s) = record {
        marks = marks ∙ zeros;
        marked = omega (arith, count, no_marks, l, size, none_yet);
        xs_order = lx;
        ys_order = ly;
        xs_stash = xs ∙ sx;
        ys_stash = ys ∙ sy;
        budget = omega (arith, none_yet);
        room = room;
      } in
      subst
        (λ (u : OhTable V Key).
          IsTable u × (u.params ≡ t.params) × (u.key ≡ t.key) × (u.query_count ≡ 0))
        (some-inj h2) (built, refl, refl, none_yet)
    where
      unmarked : (indices : List ℕ) → Unmarked t.touched indices
      unmarked indices k y at marked =
          no_true (total_size t.params) y (ap (λ bs. get_elem? bs y) (sym clear) ∙ marked)
