-- ===== src/DataStructures/OhTable/Positions.antt =====
-- Where a build puts its elements and its dummies.
use gigadoram_rs.Base.{
  some-inj, ℕ, ◌+◌, ◌-◌, ◌^◌, ◌<◌, ◌≡◌, ◌≢◌, sym, ap, ◌∙◌, arith, List, map, some, length,
  length-map, drop, get_elem?, get_elem?-of_lt, get_elem?-append_left, get_elem?-padding,
  get_elem?-drop, lt_of_get_elem?, dec_lt,
}
use gigadoram_rs.Primitives.Permutation.Evaluate.{get_elem?-range, get_elem?-map}
use gigadoram_rs.Primitives.ArrayShuffle.Indices.{
  taken_from, put_at, put_at-taken_from, taken_from-put_at, put_at-lt, forward-at, backward-at,
  shuffle-at, step_from,
}
use gigadoram_rs.Primitives.Permutation.Indices.{target-source}
use gigadoram_rs.Primitives.Permutation.Inverse.{last}
use gigadoram_rs.Primitives.Value.{DoramValue, Record, zero_record}
use gigadoram_rs.DataStructures.OhTable.Params.{OhTableParams, total_size}
use gigadoram_rs.DataStructures.OhTable.Table.{OhTable}
use gigadoram_rs.DataStructures.OhTable.Entries.{position}
use gigadoram_rs.DataStructures.OhTable.Chain.{Chain, all_tags, all_xs, all_ys}

module _ {V Key : Type 0} ⦃d : DoramValue V⦄ (prf : Key → ℕ → ℕ) (p : OhTableParams) (xs : List ℕ)
    (ys : List (Record V)) (key : Key) (t : OhTable V Key) (c : Chain prf p xs ys key t) where
  -- The index before the shuffle of a position in the builder's order, and back.
  pub index_of : ℕ → ℕ
  index_of j = taken_from c.shuffler j

  pub place_of : ℕ → ℕ
  place_of e = put_at c.shuffler e

  pub index_of-place_of : (e : ℕ) → index_of (place_of e) ≡ e
  unfolding index_of place_of
  index_of-place_of e = taken_from-put_at c.shuffler e

  pub place_of-index_of : (j : ℕ) → place_of (index_of j) ≡ j
  unfolding index_of place_of
  place_of-index_of j = put_at-taken_from c.shuffler j

  pub place_of-lt : (e : ℕ) → e < total_size p → place_of e < total_size p
  unfolding place_of
  place_of-lt e lt = put_at-lt c.shuffler (total_size p) e c.fits lt

  pub place_of-inj : (e e' : ℕ) → place_of e ≡ place_of e' → e ≡ e'
  place_of-inj e e' same = sym (index_of-place_of e) ∙ ap index_of same ∙ index_of-place_of e'

  length-all_tags : length (all_tags prf p xs ys key) ≡ total_size p
  length-all_tags =
      let (l, _, _) = forward-at c.shuffler (total_size p) _ c.qs c.fits c.qs_made in l

  pub length-all_xs : length (all_xs prf p xs ys key) ≡ total_size p
  length-all_xs =
      let (l, _, _) = forward-at c.shuffler (total_size p) _ c.xs_builder c.fits c.xs_made in l

  pub length-qs : length c.qs ≡ total_size p
  length-qs = let (_, l, _) = forward-at c.shuffler (total_size p) _ c.qs c.fits c.qs_made in l

  pub qs-at : (j : ℕ) → get_elem? c.qs j ≡ get_elem? (all_tags prf p xs ys key) (index_of j)
  unfolding index_of
  qs-at j = let (_, _, g) = forward-at c.shuffler (total_size p) _ c.qs c.fits c.qs_made in g j

  pub xs-at : (j : ℕ) → get_elem? c.xs_builder j ≡ get_elem? (all_xs prf p xs ys key) (index_of j)
  unfolding index_of
  xs-at j =
      let (_, _, g) = forward-at c.shuffler (total_size p) _ c.xs_builder c.fits c.xs_made in g j

  pub ys-at : (j : ℕ) → get_elem? c.ys_builder j ≡ get_elem? (all_ys prf p xs ys key) (index_of j)
  unfolding index_of
  ys-at j =
      let (_, _, g) = forward-at c.shuffler (total_size p) _ c.ys_builder c.fits c.ys_made in g j

  -- The `k`th dummy stands where the shuffle puts the `k`th index behind the elements.
  pub dummy-at :
      (k : ℕ)
      → k < p.num_dummies
      → get_elem? (drop p.num_elements c.indices) k ≡ some (place_of (p.num_elements + k))
  unfolding place_of
  dummy-at k lt =
      let inside : p.num_elements + k < total_size p = omega (arith, lt) in
      let (_, g) = backward-at c.shuffler (total_size p) _ c.indices c.fits c.indices_made in
      get_elem?-drop p.num_elements c.indices k
      ∙ g (p.num_elements + k)
      ∙ get_elem?-range 0 (total_size p) (put_at c.shuffler (p.num_elements + k))
          (put_at-lt c.shuffler (total_size p) (p.num_elements + k) c.fits inside)
      ∙ ap some (omega arith)

  pub length-indices : length c.indices ≡ total_size p
  length-indices =
      let (l, _) = backward-at c.shuffler (total_size p) _ c.indices c.fits c.indices_made in l

  -- The receivers' order.
  pub xs_receiver-at :
      (j : ℕ) → get_elem? c.xs_receiver (position c.known j) ≡ get_elem? c.xs_builder j
  unfolding step_from
  xs_receiver-at j =
      let (_, _, g) = shuffle-at c.known c.xs_builder c.xs_receiver c.known_valid c.xs_ordered in
      g (position c.known j)
      ∙ ap (get_elem? c.xs_builder) (target-source c.known.fy (last c.known) j)

  pub ys_receiver-at :
      (j : ℕ) → get_elem? c.ys_receiver (position c.known j) ≡ get_elem? c.ys_builder j
  unfolding step_from
  ys_receiver-at j =
      let (_, _, g) = shuffle-at c.known c.ys_builder c.ys_receiver c.known_valid c.ys_ordered in
      g (position c.known j)
      ∙ ap (get_elem? c.ys_builder) (target-source c.known.fy (last c.known) j)

  -- What stands at the place of an element.
  module _ (e : ℕ) (lt : e < p.num_elements) where
    pub element_x : get_elem? c.xs_builder (place_of e) ≡ get_elem? xs e
    element_x =
        xs-at (place_of e)
        ∙ ap (get_elem? (all_xs prf p xs ys key)) (index_of-place_of e)
        ∙ get_elem?-append_left xs _ e (omega (arith, lt, c.xs_length))

    pub element_y : get_elem? c.ys_builder (place_of e) ≡ get_elem? ys e
    element_y =
        ys-at (place_of e)
        ∙ ap (get_elem? (all_ys prf p xs ys key)) (index_of-place_of e)
        ∙ get_elem?-append_left ys _ e (omega (arith, lt, c.ys_length))

    pub element_q :
        (x : ℕ) → get_elem? xs e ≡ some x → get_elem? c.qs (place_of e) ≡ some (prf key x)
    element_q x at =
        qs-at (place_of e)
        ∙ ap (get_elem? (all_tags prf p xs ys key)) (index_of-place_of e)
        ∙ get_elem?-append_left (map (prf key) xs) _ e
            (omega (arith, lt, c.xs_length, length-map xs (prf key)))
        ∙ get_elem?-map (prf key) xs e x at

  -- What stands at the place of a dummy.
  module _ (k : ℕ) (lt : k < p.num_dummies) where
    pub dummy_x :
        get_elem? c.xs_builder (place_of (p.num_elements + k)) ≡ some (2 ^ p.log_address_space_size)
    dummy_x =
        xs-at (place_of (p.num_elements + k))
        ∙ ap (get_elem? (all_xs prf p xs ys key)) (index_of-place_of (p.num_elements + k))
        ∙ get_elem?-padding p.num_elements (total_size p) (2 ^ p.log_address_space_size) xs
            (p.num_elements + k) c.xs_length (omega arith) (omega (arith, lt))

    pub dummy_y : get_elem? c.ys_builder (place_of (p.num_elements + k)) ≡ some zero_record
    dummy_y =
        ys-at (place_of (p.num_elements + k))
        ∙ ap (get_elem? (all_ys prf p xs ys key)) (index_of-place_of (p.num_elements + k))
        ∙ get_elem?-padding p.num_elements (total_size p) zero_record ys (p.num_elements + k)
            c.ys_length (omega arith) (omega (arith, lt))

    pub dummy_q : get_elem? c.qs (place_of (p.num_elements + k)) ≡ some 0
    dummy_q =
        qs-at (place_of (p.num_elements + k))
        ∙ ap (get_elem? (all_tags prf p xs ys key)) (index_of-place_of (p.num_elements + k))
        ∙ get_elem?-padding p.num_elements (total_size p) 0 (map (prf key) xs) (p.num_elements + k)
            (length-map xs (prf key) ∙ c.xs_length) (omega arith) (omega (arith, lt))

  -- Whatever stands at a position is an element or a dummy.
  pub data Occupant (j : ℕ) : Type 0 where
    element : (e : ℕ) → e < p.num_elements → place_of e ≡ j → Occupant j
    dummy : (k : ℕ) → k < p.num_dummies → place_of (p.num_elements + k) ≡ j → Occupant j

  pub occupant : (j : ℕ) → index_of j < total_size p → Occupant j
  occupant j lt = elim (dec_lt (index_of j) p.num_elements) [
    | yes low ↦ element (index_of j) low (place_of-index_of j)
    | no high ↦ dummy (index_of j - p.num_elements) (omega arith) (
        ap place_of {x = p.num_elements + (index_of j - p.num_elements)} {y = index_of j}
          (omega arith)
        ∙ place_of-index_of j)
  ]

  -- A tag other than zero is the tag of an element.
  pub tag_of_element :
      (j q : ℕ)
      → get_elem? c.qs j ≡ some q
      → q ≢ 0
      → (e : ℕ) × (x : ℕ) × (e < p.num_elements)
        × (place_of e ≡ j)
        × (get_elem? xs e ≡ some x)
        × (q ≡ prf key x)
  tag_of_element j q at real =
      let inside = lt_of_get_elem? (all_tags prf p xs ys key) (index_of j) (sym (qs-at j) ∙ at) in
      elim (occupant j (omega (arith, inside, length-all_tags))) [
        | element e lt there ↦
            let (x, at_x) = get_elem?-of_lt xs e (omega (arith, lt, c.xs_length)) in
            (
              e,
              x,
              lt,
              there,
              at_x,
              some-inj (sym at ∙ ap (get_elem? c.qs) (sym there) ∙ element_q e lt x at_x),
            )
        | dummy k lt there ↦
            absurd (real (some-inj (sym at ∙ ap (get_elem? c.qs) (sym there) ∙ dummy_q k lt)))
      ]
