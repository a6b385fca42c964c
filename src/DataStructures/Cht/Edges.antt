-- ===== src/DataStructures/Cht/Edges.antt =====
-- The adjacency lists hold every block as an edge between its two locations, in both directions.
use gigadoram_rs.Base.{
  ℕ, zero, suc, ◌+◌, ◌*◌, ◌/◌, ◌^◌, ◌<◌, ◌≤◌, ◌≡◌, ◌≢◌, refl, sym, ap, subst, arith, ◌⊎◌, inl, inr,
  List, [], ◌∷◌, ◌++◌, none, some, get_elem?,
}
use gigadoram_rs.Base.Powers.{two_pow_pos}
use native.Mathlib.Nat.{mod-lt}
use gigadoram_rs.DataStructures.Cht.{DirectedEdge, push, h0, h1, num_vertices, add_edges}
use gigadoram_rs.DataStructures.Cht.Invariant.{
  Has, here, there, hit, miss, update-cases, update_hit, Graph,
}
use gigadoram_rs.DataStructures.Cht.Stack.{Adjacency}

module _ {A : Type 0} where
  Has-append_left : (a c : A) (xs : List A) → Has a xs → Has a (xs ++ (c ∷ []))
  Has-append_left a c [] h = elim h [ ]
  Has-append_left a c (x ∷ xs) here = here
  Has-append_left a c (x ∷ xs) (there h) = there (Has-append_left a c xs h)

  Has-append_right : (c : A) (xs : List A) → Has c (xs ++ (c ∷ []))
  Has-append_right c [] = here
  Has-append_right c (x ∷ xs) = there (Has-append_right c xs)

  append-Has : (a c : A) (xs : List A) → Has a (xs ++ (c ∷ [])) → Has a xs ⊎ (a ≡ c)
  append-Has a c [] here = inr refl
  append-Has a c [] (there h) = elim h [ ]
  append-Has a c (x ∷ xs) here = inl here
  append-Has a c (x ∷ xs) (there h) = elim (append-Has a c xs h) [
    | inl k ↦ inl (there k)
    | inr k ↦ inr k
  ]

module _ (edges : ℕ → List DirectedEdge) (v : ℕ) (c : DirectedEdge) where
  push-Has :
      (d : DirectedEdge) (w : ℕ) → Has d (push edges v c w) → Has d (edges w) ⊎ ((w ≡ v) × (d ≡ c))
  push-Has d w h = elim (update-cases edges v (edges v ++ (c ∷ [])) w) [
    | miss other u ↦ inl (subst (Has d) u h)
    | hit same u ↦ elim (append-Has d c (edges v) (subst (Has d) u h)) [
      | inl k ↦ inl (subst (λ (x : ℕ). Has d (edges x)) (sym same) k)
      | inr k ↦ inr (same, k)
    ]
  ]

  Has-push_before : (d : DirectedEdge) (w : ℕ) → Has d (edges w) → Has d (push edges v c w)
  Has-push_before d w h = elim (update-cases edges v (edges v ++ (c ∷ [])) w) [
    | miss other u ↦ subst (Has d) (sym u) h
    | hit same u ↦
        subst (Has d) (sym u)
          (Has-append_left d c (edges v) (subst (λ (x : ℕ). Has d (edges x)) same h))
  ]

  Has-push_new : Has c (push edges v c v)
  Has-push_new =
      subst (Has c) (sym (update_hit edges v (edges v ++ (c ∷ [])))) (Has-append_right c (edges v))

-- The locations of a block, in both orders.
abbrev pub Located : ℕ → ℕ → ℕ → ℕ → Type 0
Located l x v w = ((v ≡ h0 x l) × (w ≡ h1 x l)) ⊎ ((v ≡ h1 x l) × (w ≡ h0 x l))

module _ (l : ℕ) where
  abbrev with_block : ℕ → ℕ → (ℕ → List DirectedEdge) → ℕ → List DirectedEdge
  with_block edge x edges =
      let left = h0 x l in
      let right = h1 x l in
      let with_left = push edges left (record { edge = edge; vertex = right }) in
      push with_left right (record { edge = edge; vertex = left })

  add_edges-before :
      (edge : ℕ) (xs : List ℕ) (edges : ℕ → List DirectedEdge) (d : DirectedEdge) (v : ℕ)
      → Has d (edges v)
      → Has d (add_edges l edge xs edges v)
  unfolding add_edges
  add_edges-before edge [] edges d v h = h
  add_edges-before edge (x ∷ xs) edges d v h =
      let left : DirectedEdge = record { edge = edge; vertex = h1 x l } in
      let right : DirectedEdge = record { edge = edge; vertex = h0 x l } in
      add_edges-before (suc edge) xs (with_block edge x edges) d v (
        Has-push_before (push edges (h0 x l) left) (h1 x l) right d v
          (Has-push_before edges (h0 x l) left d v h))

  first_Has :
      (edge y : ℕ) (edges : ℕ → List DirectedEdge) (v w : ℕ)
      → Located l y v w
      → Has (record { edge = edge; vertex = w }) (with_block edge y edges v)
  first_Has edge y edges v w (inl (at, to)) =
      let left : ℕ → DirectedEdge = λ u. record { edge = edge; vertex = u } in
      let found =
        Has-push_before (push edges (h0 y l) (left (h1 y l))) (h1 y l) (left (h0 y l))
          (left (h1 y l)) (h0 y l) (Has-push_new edges (h0 y l) (left (h1 y l))) in
      subst (λ u. Has (left u) (with_block edge y edges v)) (sym to)
        (subst (λ (u : ℕ). Has (left (h1 y l)) (with_block edge y edges u)) (sym at) found)
  first_Has edge y edges v w (inr (at, to)) =
      let right : ℕ → DirectedEdge = λ u. record { edge = edge; vertex = u } in
      let found = Has-push_new (push edges (h0 y l) (right (h1 y l))) (h1 y l) (right (h0 y l)) in
      subst (λ u. Has (right u) (with_block edge y edges v)) (sym to)
        (subst (λ (u : ℕ). Has (right (h0 y l)) (with_block edge y edges u)) (sym at) found)

  add_edges-Has :
      (edge : ℕ) (xs : List ℕ) (edges : ℕ → List DirectedEdge) (i x v w : ℕ)
      → get_elem? xs i ≡ some x
      → Located l x v w
      → Has (record { edge = edge + i; vertex = w }) (add_edges l edge xs edges v)
  unfolding add_edges
  add_edges-Has edge [] edges i x v w h located = absurd (none_some h)
    where
      none_some : {A : Type 0} {a : A} → none ≡ some a → ⊥
      none_some k = cc
  add_edges-Has edge (y ∷ xs) edges zero x v w h located =
      let same = some-inj h in
      let found =
        first_Has edge y edges v w (subst (λ (u : ℕ). Located l u v w) (sym same) located) in
      subst (λ (n : ℕ). Has (record { edge = n; vertex = w }) (add_edges l edge (y ∷ xs) edges v))
        {x = edge} (omega arith)
        (add_edges-before (suc edge) xs (with_block edge y edges)
          (record { edge = edge; vertex = w }) v found)
    where
      some-inj : {a b : ℕ} → some a ≡ some b → a ≡ b
      some-inj k = ap (λ o. elim o [ some z ↦ z | none ↦ zero ]) k
  add_edges-Has edge (y ∷ xs) edges (suc i) x v w h located =
      subst (λ (n : ℕ). Has (record { edge = n; vertex = w }) (add_edges l edge (y ∷ xs) edges v))
        {x = suc edge + i} (omega arith)
        (add_edges-Has (suc edge) xs (with_block edge y edges) i x v w h located)

  -- Where an edge of the lists comes from.
  Origin : ℕ → List ℕ → ℕ → DirectedEdge → Type 0
  Origin edge xs v d =
      (i : ℕ) × (x : ℕ) × (get_elem? xs i ≡ some x) × (d.edge ≡ edge + i) × Located l x v d.vertex

  with_block-Has :
      (edge y : ℕ) (edges : ℕ → List DirectedEdge) (v : ℕ) (d : DirectedEdge)
      → Has d (with_block edge y edges v)
      → Has d (edges v) ⊎ ((d.edge ≡ edge) × Located l y v d.vertex)
  with_block-Has edge y edges v d h =
      let left : DirectedEdge = record { edge = edge; vertex = h1 y l } in
      let right : DirectedEdge = record { edge = edge; vertex = h0 y l } in
      elim (push-Has (push edges (h0 y l) left) (h1 y l) right d v h) [
        | inr (at, same) ↦ inr (ap (λ c. c.edge) same, inr (at, ap (λ c. c.vertex) same))
        | inl k ↦ elim (push-Has edges (h0 y l) left d v k) [
          | inr (at, same) ↦ inr (ap (λ c. c.edge) same, inl (at, ap (λ c. c.vertex) same))
          | inl before ↦ inl before
        ]
      ]

  Has-add_edges :
      (edge : ℕ) (xs : List ℕ) (edges : ℕ → List DirectedEdge) (v : ℕ) (d : DirectedEdge)
      → Has d (add_edges l edge xs edges v)
      → Has d (edges v) ⊎ Origin edge xs v d
  unfolding add_edges Origin
  Has-add_edges edge [] edges v d h = inl h
  Has-add_edges edge (y ∷ xs) edges v d h =
      elim (Has-add_edges (suc edge) xs (with_block edge y edges) v d h) [
        | inr (i, x, at, same, located) ↦ inr (suc i, x, at, omega (arith, same), located)
        | inl k ↦ elim (with_block-Has edge y edges v d k) [
          | inl before ↦ inl before
          | inr (same, located) ↦ inr (zero, y, refl, omega (arith, same), located)
        ]
      ]

  pub h0-bound : (x : ℕ) → h0 x l < 2 ^ l
  unfolding h0
  h0-bound x = mod-lt (x / 2 ^ 64) (two_pow_pos l)

  pub h1-bound : (x : ℕ) → (2 ^ l ≤ h1 x l) × (h1 x l < 2 * 2 ^ l)
  unfolding h1
  h1-bound x =
      let small = mod-lt (x / 2 ^ 96) (two_pow_pos l) in (omega arith, omega (arith, small))

  module _ (xs : List ℕ) where
    -- Block `e` of the input joins its two locations.
    unfoldable pub locations : Graph
    locations = record {
      size = num_vertices l;
      Joins = λ e v w. (x : ℕ) × (get_elem? xs e ≡ some x) × Located l x v w;
      joins_sym = λ {e} {v} {w} j. turn_round e v w j;
      joins_ne = λ {e} {v} {w} j. two_sides e v w j;
      joins_lt = λ {e} {v} {w} j. in_table e v w j;
    }
      where
        turn_round :
            (e v w : ℕ)
            → ((x : ℕ) × (get_elem? xs e ≡ some x) × Located l x v w)
            → (x : ℕ) × (get_elem? xs e ≡ some x) × Located l x w v
        turn_round e v w (x, at, inl (a, b)) = (x, at, inr (b, a))
        turn_round e v w (x, at, inr (a, b)) = (x, at, inl (b, a))

        two_sides : (e v w : ℕ) → ((x : ℕ) × (get_elem? xs e ≡ some x) × Located l x v w) → v ≢ w
        two_sides e v w (x, at, inl (a, b)) same =
            absurd (omega (arith, a, b, same, h0-bound x, (h1-bound x).0))
        two_sides e v w (x, at, inr (a, b)) same =
            absurd (omega (arith, a, b, same, h0-bound x, (h1-bound x).0))

        in_table :
            (e v w : ℕ)
            → ((x : ℕ) × (get_elem? xs e ≡ some x) × Located l x v w)
            → w < num_vertices l
        in_table e v w (x, at, inl (a, b)) = omega (arith, b, (h1-bound x).1)
        in_table e v w (x, at, inr (a, b)) = omega (arith, b, h0-bound x, two_pow_pos l)

    pub locations-Adjacency : Adjacency locations (add_edges l 0 xs (λ v. []))
    unfolding locations Origin
    locations-Adjacency = record {
      sound = λ v d h. from_block v d (Has-add_edges 0 xs (λ v. []) v d h);
      complete = λ e v w j. all_blocks e v w j;
    }
      where
        from_block :
            (v : ℕ) (d : DirectedEdge)
            → Has d [] ⊎ Origin 0 xs v d
            → locations.Joins d.edge v d.vertex
        from_block v d (inl h) = elim h [ ]
        from_block v d (inr (i, x, at, same, located)) =
            (x, subst (λ (n : ℕ). get_elem? xs n ≡ some x) (omega (arith, same)) at, located)

        all_blocks :
            (e v w : ℕ)
            → ((x : ℕ) × (get_elem? xs e ≡ some x) × Located l x v w)
            → Has (record { edge = e; vertex = w }) (add_edges l 0 xs (λ v. []) v)
        all_blocks e v w (x, at, located) =
            subst (λ (n : ℕ). Has (record { edge = n; vertex = w }) (add_edges l 0 xs (λ v. []) v))
              {x = 0 + e} (omega arith) (add_edges-Has 0 xs (λ v. []) e x v w at located)
