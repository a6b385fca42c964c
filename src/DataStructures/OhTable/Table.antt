-- ===== src/DataStructures/OhTable/Table.antt =====
-- `OhTable` on opened values, with the steps of its build. The tag of an address under a key, which
-- is LowMC, is the parameter `prf`. `none` is a panic or an `Err`.
use gigadoram_rs.Base.{
  ℕ, suc, ◌+◌, ◌-◌, ◌%◌, ◌^◌, ◌≤◌, List, [], ◌∷◌, ◌++◌, map, Option, none, some, Bool, true, false,
  not, ltb, leb, ◌==◌, if◌then◌else◌, length, replicate, drop, range, get_elem?, set, ◌>>=◌, ◌>>◌,
  ensure,
}
use gigadoram_rs.Primitives.Rep3.{PartyId, id1}
use gigadoram_rs.Primitives.Permutation.{LocalPermutation, sample_from_rng, shuffle, evaluate_at}
use gigadoram_rs.Primitives.ArrayShuffle.{ArrayShuffler, forward, backward}
use gigadoram_rs.Primitives.Utils.{set_low_u32}
use gigadoram_rs.Primitives.Value.{DoramValue, Record, zero_record}
use gigadoram_rs.DataStructures.Cht.{build, lookup}
use gigadoram_rs.DataStructures.OhTable.Params.{OhTableParams, total_size, validate}

pub record OhTableQueryTrace : Type 0 where
  pub old_query_count : ℕ
  pub selected_receiver_index : ℕ
  pub was_touched_before : Bool

pub record OhTable (V Key : Type 0) : Type 0 where
  pub params : OhTableParams
  pub key : Key
  pub stash_xs : List ℕ
  pub stash_ys : List (Record V)
  pub builder_stash_indices : List ℕ
  pub qs_builder_order : List ℕ
  pub xs_builder_order : List ℕ
  pub ys_builder_order : List (Record V)
  pub dummy_indices : List ℕ
  pub xs_receiver_order : List ℕ
  pub ys_receiver_order : List (Record V)
  pub cht_2shares : ℕ → ℕ
  pub receiver_shuffle : Option LocalPermutation
  pub query_count : ℕ
  pub touched : List Bool
  pub last_query_trace : Option OhTableQueryTrace

-- What the generators draw: `draw i` is at most `i`.
pub record Draws : Type 0 where
  pub draw : ℕ → ℕ
  pub bound : (i : ℕ) → draw i ≤ i

-- The draws of the two shufflers and of the builder's own permutation.
pub record Coins : Type 0 where
  pub builder_shuffler : PartyId → Draws
  pub builder_local_perm : Draws
  pub receiver_shuffler : PartyId → Draws

-- `ArrayShuffler::new`.
abbrev pub new_shuffler : ℕ → (PartyId → Draws) → ArrayShuffler
new_shuffler len draws = record { next_shared_perm = λ id. sample_from_rng len (draws id).draw }

-- The builder's tags, each with its position in place of the low 32 bits; a zero tag is a dummy.
unfoldable pub compact : ℕ → List ℕ → List ℕ
compact i [] = []
compact i (q ∷ qs) =
    let rest = compact (suc i) qs in if q == 0 then rest else set_low_u32 q (i % 2 ^ 32) ∷ rest

-- One position of the stash.
pub record Stash (V : Type 0) : Type 0 where
  pub touched : List Bool
  pub stash_xs : List ℕ
  pub stash_ys : List (Record V)

-- `evaluate_at` of every index, each on the permutation that the one before leaves.
unfoldable pub receiver_indices : List ℕ → LocalPermutation → Option (List ℕ × LocalPermutation)
receiver_indices [] perm = some ([], perm)
receiver_indices (i ∷ is) perm = do
  (index, next) ← evaluate_at perm i
  (rest, last) ← receiver_indices is next
  some (index ∷ rest, last)

module _ {V : Type 0} where
  -- The loop over the stash positions.
  unfoldable pub place_indices : List ℕ → List (Record V) → ℕ → List ℕ → Stash V → Option (Stash V)
  place_indices xs ys stash_pos [] s = some s
  place_indices xs ys stash_pos (receiver_index ∷ rest) s = do
    ensure (ltb receiver_index (length s.touched))
    ensure (ltb stash_pos (length s.stash_xs))
    ensure (ltb stash_pos (length s.stash_ys))
    x ← get_elem? xs receiver_index
    y ← get_elem? ys receiver_index
    place_indices xs ys (suc stash_pos) rest (record {
      touched = set s.touched receiver_index true;
      stash_xs = set s.stash_xs stash_pos x;
      stash_ys = set s.stash_ys stash_pos y;
    })

  -- The loop of `extract_untouched`.
  unfoldable pub untouched_entries :
      List Bool → List ℕ → List (Record V) → Option (List ℕ × List (Record V))
  untouched_entries [] xs ys = some ([], [])
  untouched_entries (b ∷ touched) [] ys = if b then untouched_entries touched [] ys else none
  untouched_entries (b ∷ touched) (x ∷ xs) [] = if b then untouched_entries touched xs [] else none
  untouched_entries (true ∷ touched) (x ∷ xs) (y ∷ ys) = untouched_entries touched xs ys
  untouched_entries (false ∷ touched) (x ∷ xs) (y ∷ ys) = do
    (rest_xs, rest_ys) ← untouched_entries touched xs ys
    some (x ∷ rest_xs, y ∷ rest_ys)

module _ {V Key : Type 0} where
  unfoldable pub shuffle_builder_order :
      OhTable V Key → List ℕ → List (Record V) → (PartyId → Draws) → Option (OhTable V Key)
  shuffle_builder_order t xs ys draws =
      let shuffler = new_shuffler (total_size t.params) draws in
      let all_xs = xs ++ drop t.params.num_elements t.xs_builder_order in
      let all_ys = ys ++ drop t.params.num_elements t.ys_builder_order in
      do
        qs ← forward shuffler t.qs_builder_order
        shuffled_xs ← forward shuffler all_xs
        shuffled_ys ← forward shuffler all_ys
        indices ← backward shuffler (range 0 (total_size t.params))
        some (record t {
          qs_builder_order = qs;
          xs_builder_order = shuffled_xs;
          ys_builder_order = shuffled_ys;
          dummy_indices = drop t.params.num_elements indices;
        })

  unfoldable pub build_cht : OhTable V Key → Draws → Option (OhTable V Key × List ℕ)
  build_cht t draws = do
    compacted ←
        shuffle (sample_from_rng t.params.num_elements draws.draw) (compact 0 t.qs_builder_order)
    (table, stashed_indices) ← build t.params.stash_size t.params.log_single_col_len compacted
    some (record t { cht_2shares = table }, stashed_indices)

  -- One step of the shuffle, by the permutation that the two receivers know.
  unfoldable pub shuffle_receiver_order :
      OhTable V Key → (PartyId → Draws) → Option (OhTable V Key × LocalPermutation)
  shuffle_receiver_order t draws =
      let perm = (new_shuffler (total_size t.params) draws).next_shared_perm id1 in
      do
        xs ← shuffle perm t.xs_builder_order
        ys ← shuffle perm t.ys_builder_order
        some (record t { xs_receiver_order = xs; ys_receiver_order = ys }, perm)

  unfoldable pub place_stash : OhTable V Key → List ℕ → LocalPermutation → Option (OhTable V Key)
  unfolding receiver_indices place_indices
  place_stash t stashed_indices receiver_shuffle = do
    (indices, perm) ← receiver_indices stashed_indices receiver_shuffle
    s ←
        place_indices t.xs_receiver_order t.ys_receiver_order 0 indices
          (record { touched = t.touched; stash_xs = t.stash_xs; stash_ys = t.stash_ys })
    some (record t {
      builder_stash_indices = stashed_indices;
      touched = s.touched;
      stash_xs = s.stash_xs;
      stash_ys = s.stash_ys;
      receiver_shuffle = some perm;
    })

module _ {V Key : Type 0} ⦃d : DoramValue V⦄ (prf : Key → ℕ → ℕ) where
  unfoldable pub fill_prf_tags : OhTable V Key → List ℕ → OhTable V Key
  fill_prf_tags t xs = record t {
    qs_builder_order = map (prf t.key) xs ++ drop t.params.num_elements t.qs_builder_order;
  }

  unfoldable pub build_table :
      OhTable V Key → List ℕ → List (Record V) → Coins → Option (OhTable V Key)
  unfolding fill_prf_tags shuffle_builder_order build_cht shuffle_receiver_order place_stash
  build_table t xs ys coins = do
    ensure (length xs == t.params.num_elements)
    ensure (length ys == t.params.num_elements)
    shuffled ← shuffle_builder_order (fill_prf_tags t xs) xs ys coins.builder_shuffler
    (with_cht, stashed_indices) ← build_cht shuffled coins.builder_local_perm
    (ordered, receiver_shuffle) ← shuffle_receiver_order with_cht coins.receiver_shuffler
    place_stash ordered stashed_indices receiver_shuffle

  abbrev pub unbuilt : OhTableParams → Key → OhTable V Key
  unbuilt p key = record {
    params = p;
    key = key;
    stash_xs = replicate p.stash_size 0;
    stash_ys = replicate p.stash_size zero_record;
    builder_stash_indices = replicate p.stash_size 0;
    qs_builder_order = replicate (total_size p) 0;
    xs_builder_order = replicate (total_size p) (2 ^ p.log_address_space_size);
    ys_builder_order = replicate (total_size p) zero_record;
    dummy_indices = replicate p.num_dummies 0;
    xs_receiver_order = replicate (total_size p) 0;
    ys_receiver_order = replicate (total_size p) zero_record;
    cht_2shares = λ i. 0;
    receiver_shuffle = none;
    query_count = 0;
    touched = replicate (total_size p) false;
    last_query_trace = none;
  }

  unfoldable pub new :
      OhTableParams → List ℕ → List (Record V) → Key → Coins → Option (OhTable V Key)
  unfolding build_table
  new p xs ys key coins = do
    validate p
    ensure (length xs == p.num_elements)
    ensure (length ys == p.num_elements)
    build_table (unbuilt p key) xs ys coins

module _ {V Key : Type 0} where
  -- The selected index is marked, and the query is counted.
  unfoldable pub mark : OhTable V Key → ℕ → LocalPermutation → OhTable V Key
  mark t index perm = record t {
    receiver_shuffle = some perm;
    touched = set t.touched index true;
    query_count = suc t.query_count;
    last_query_trace = some (record {
      old_query_count = t.query_count;
      selected_receiver_index = index;
      was_touched_before = false;
    });
  }

  -- `random` is what the dummy selection draws in place of the tag.
  unfoldable pub query : OhTable V Key → ℕ → Bool → ℕ → Option (OhTable V Key × (Record V × Bool))
  unfolding lookup mark
  query t q use_dummy random = do
    ensure (ltb t.query_count t.params.num_dummies)
    let q_clear = if use_dummy then random else q
    dummy_index ← get_elem? t.dummy_indices t.query_count
    let found = lookup t.params.log_single_col_len t.cht_2shares q_clear dummy_index
    receiver_shuffle ← t.receiver_shuffle
    (index, perm) ← evaluate_at receiver_shuffle found.0
    was_touched_before ← get_elem? t.touched index
    ensure (not was_touched_before)
    y ← get_elem? t.ys_receiver_order index
    some (mark t index perm, (y, found.1))

  -- The capacity that the code reserves may not be negative.
  unfoldable pub extract_untouched : OhTable V Key → Option (List ℕ × List (Record V))
  unfolding untouched_entries
  extract_untouched t = do
    ensure (leb (t.params.stash_size + t.query_count) (total_size t.params))
    untouched_entries t.touched t.xs_receiver_order t.ys_receiver_order

  unfoldable pub extract : OhTable V Key → Option (List ℕ × List (Record V))
  unfolding extract_untouched
  extract t = do
    ensure (t.query_count == t.params.num_dummies)
    (xs, ys) ← extract_untouched t
    ensure (length xs == t.params.num_elements - t.params.stash_size)
    ensure (length ys == t.params.num_elements - t.params.stash_size)
    some (xs, ys)

-- One query of `query_many`: its tag, whether it asks for a dummy, and what is drawn for a dummy.
pub record Request : Type 0 where
  pub q : ℕ
  pub use_dummy : Bool
  pub random : ℕ

-- The dummy selection and the lookups of all queries, from the old query count on.
unfoldable pub lookup_many : ℕ → (ℕ → ℕ) → List ℕ → ℕ → List Request → Option (List (ℕ × Bool))
unfolding lookup
lookup_many l table dummy_indices count [] = some []
lookup_many l table dummy_indices count (r ∷ rs) = do
  dummy_index ← get_elem? dummy_indices count
  rest ← lookup_many l table dummy_indices (suc count) rs
  some (lookup l table (if r.use_dummy then r.random else r.q) dummy_index ∷ rest)

module _ {V Key : Type 0} where
  -- The bookkeeping of all queries. The query count is raised at the end.
  unfoldable pub mark_many :
      ℕ → List ℕ → List (ℕ × Bool) → OhTable V Key → Option (OhTable V Key × List (Record V × Bool))
  mark_many count [] found t = some (t, [])
  mark_many count (index ∷ indices) [] t = none
  mark_many count (index ∷ indices) ((i, found) ∷ rest) t = do
    was_touched_before ← get_elem? t.touched index
    ensure (not was_touched_before)
    y ← get_elem? t.ys_receiver_order index
    (last, results) ← mark_many (suc count) indices rest (record t {
      touched = set t.touched index true;
      last_query_trace = some (record {
        old_query_count = count;
        selected_receiver_index = index;
        was_touched_before = false;
      });
    })
    some (last, (y, found) ∷ results)

  unfoldable pub query_many :
      OhTable V Key → List Request → Option (OhTable V Key × List (Record V × Bool))
  unfolding lookup_many receiver_indices mark_many
  query_many t requests = do
    ensure (leb (t.query_count + length requests) t.params.num_dummies)
    found ←
        lookup_many t.params.log_single_col_len t.cht_2shares t.dummy_indices t.query_count requests
    receiver_shuffle ← t.receiver_shuffle
    (indices, perm) ← receiver_indices (map (λ f. f.0) found) receiver_shuffle
    (last, results) ←
        mark_many t.query_count indices found (record t { receiver_shuffle = some perm })
    some (record last { query_count = t.query_count + length requests }, results)
