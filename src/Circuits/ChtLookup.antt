-- ===== src/Circuits/ChtLookup.antt =====
-- crates/circuits/src/cht_lookup.rs: the circuit, over any implementation of its gates. Gates that
-- fail pass their error on, and are left out.
pub mod Laws
use gigadoram_rs.Base.{
  ℕ, ◌≡◌, List, [], ◌∷◌, ◌++◌, map, Bool, true, false, not, ◌&&◌, if◌then◌else◌, zip_with, take,
  drop,
}
use gigadoram_rs.Primitives.Rep3.{differ}

-- Every bit is set.
abbrev pub all_true : List Bool → Bool
all_true [] = true
all_true (b ∷ bs) = b && all_true bs

-- The gates of fancy-garbling, and what a wire stands for. `mux` takes the value for 0 first.
pub record FancyBinary : Type 1 where
  pub Item : Type 0
  pub xor : Item → Item → Item
  pub negate : Item → Item
  pub and_many : List Item → Item
  pub mux : Item → Item → Item → Item
  pub decode : Item → Bool
  pub decode_xor : (x y : Item) → decode (xor x y) ≡ differ (decode x) (decode y)
  pub decode_negate : (x : Item) → decode (negate x) ≡ not (decode x)
  pub decode_and_many : (xs : List Item) → decode (and_many xs) ≡ all_true (map decode xs)
  pub decode_mux : (b x y : Item) → decode (mux b x y) ≡ (if decode b then decode y else decode x)

module _ (g : FancyBinary) where
  unfoldable pub tags_equal : List g.Item → List g.Item → g.Item
  tags_equal lhs rhs = g.and_many (zip_with (λ l r. g.negate (g.xor l r)) lhs rhs)

  unfoldable pub mux_many : g.Item → List g.Item → List g.Item → List g.Item
  mux_many condition truthy falsey = zip_with (λ t f. g.mux condition f t) truthy falsey

  -- The wires are key tag (96), index of b0 (32), tag of b0 (96), index of b1 (32), tag of b1 (96) and
  -- the dummy index (32), as two summands.
  unfoldable pub evaluate_lookup_circuit : List g.Item → List g.Item → List g.Item
  unfolding tags_equal mux_many
  evaluate_lookup_circuit x01 x2 =
      let inputs = zip_with g.xor x01 x2 in
      let key_tag = take 96 (take 128 inputs) in
      let b0_index = drop 96 (take 128 inputs) in
      let b0_tag = take 96 (take 128 (drop 128 inputs)) in
      let b1_index = drop 96 (take 128 (drop 128 inputs)) in
      let b1_tag = take 96 (drop 256 inputs) in
      let dummy_index = drop 96 (drop 256 inputs) in
      let key_equals_b0 = tags_equal key_tag b0_tag in
      let key_equals_b1 = tags_equal key_tag b1_tag in
      let b1_or_dummy = mux_many key_equals_b1 b1_index dummy_index in
      let selected_index = mux_many key_equals_b0 b0_index b1_or_dummy in
      selected_index ++ (g.xor key_equals_b0 key_equals_b1 ∷ [])
