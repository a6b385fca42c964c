-- ===== src/DataStructures/Cht/Visit.antt =====
-- Looking at an edge of the current vertex keeps the invariant.
use gigadoram_rs.Base.{
  ℕ, ◌+◌, ◌<◌, ◌≡◌, ◌≢◌, refl, sym, ap, subst, ◌∙◌, arith, ◌⊎◌, inl, inr, ◌∷◌, false, Bool-cases,
  ◌-◌,
}
use gigadoram_rs.DataStructures.Cht.{
  DirectedEdge, StashState, none_state, unvisited, stashed, vertex, is_none_state, update, Search,
  visit_unvisited,
}
use gigadoram_rs.DataStructures.Cht.Invariant.{
  Has, here, there, hit, miss, update-cases, update_hit, update_miss, is_unvisited, count_none,
  Reached, Fresh, Graph, Parent, is_root, is_child, Inv,
}
use gigadoram_rs.DataStructures.Cht.Reach.{
  Reached-update, count_none-update, all_reached-update, vertex-inj, unvisited-vertex, fresh_clash,
  under,
}

module _ (g : Graph) (old : ℕ → StashState) (depth : ℕ → ℕ) (curr : ℕ) (d : DirectedEdge)
    (s : Search) where
  -- The edge reaches a new vertex.
  abbrev pub stamped : ℕ → ℕ
  stamped = update depth d.vertex (g.size - count_none s.parent_vertex g.size)

  abbrev after_tree : Search
  after_tree = visit_unvisited curr d none_state s

  module _ (inv : Inv g old depth (curr ∷ s.dfs) s) (joins : g.Joins d.edge curr d.vertex)
      (new : s.state d.edge ≡ unvisited) where
    curr-pending : Fresh old curr × Reached s.parent_vertex curr
    curr-pending = inv.pending curr here

    -- The states of the other edges with a vertex are as before.
    pub state_before :
        (st : StashState) (e w : ℕ)
        → update s.state d.edge st e ≡ vertex w
        → ((e ≡ d.edge) × (st ≡ vertex w)) ⊎ ((e ≢ d.edge) × (s.state e ≡ vertex w))
    state_before st e w h = elim (update-cases s.state d.edge st e) [
      | hit same u ↦ inl (same, sym u ∙ h)
      | miss other u ↦ inr (other, sym u ∙ h)
    ]

    -- The state of an edge that has a vertex is not written.
    pub still :
        (st : StashState) (m w : ℕ) → s.state m ≡ vertex w → update s.state d.edge st m ≡ vertex w
    still st m w at = elim (update-cases s.state d.edge st m) [
      | hit same u ↦ absurd (unvisited-vertex (sym new ∙ ap s.state (sym same) ∙ at))
      | miss other u ↦ u ∙ at
    ]

    pub regular_update :
        (st : StashState)
        → ((st ≡ unvisited) ⊎ (st ≡ stashed) ⊎ ((w : ℕ) × (st ≡ vertex w)))
        → (e : ℕ)
        → (update s.state d.edge st e ≡ unvisited)
          ⊎ (update s.state d.edge st e ≡ stashed)
          ⊎ ((w : ℕ) × (update s.state d.edge st e ≡ vertex w))
    regular_update st case e = elim (update-cases s.state d.edge st e) [
      | hit same u ↦
          subst (λ x. (x ≡ unvisited) ⊎ (x ≡ stashed) ⊎ ((w : ℕ) × (x ≡ vertex w))) (sym u) case
      | miss other u ↦
          subst (λ x. (x ≡ unvisited) ⊎ (x ≡ stashed) ⊎ ((w : ℕ) × (x ≡ vertex w))) (sym u)
            (inv.regular e)
    ]

    module _ (unreached : s.parent_vertex d.vertex ≡ none_state) where
      not_it : (v : ℕ) → Reached s.parent_vertex v → v ≢ d.vertex
      not_it v r e = clash (s.parent_vertex v) r (ap s.parent_vertex e ∙ unreached)
        where
          clash : (p : StashState) → is_none_state p ≡ false → p ≡ none_state → ⊥
          clash p a b = cc

      vertex-Fresh : Fresh old d.vertex
      vertex-Fresh = elim (Bool-cases (is_none_state (old d.vertex))) [
        | inl fresh ↦ fresh
        | inr before ↦
            absurd (not_it d.vertex (ap is_none_state (inv.kept d.vertex before) ∙ before) refl)
      ]

      old_not_it : (v : ℕ) → Reached old v → v ≢ d.vertex
      old_not_it v r = not_it v (ap is_none_state (inv.kept v r) ∙ r)

      depth_before : (v : ℕ) → Reached s.parent_vertex v → stamped v ≡ depth v
      depth_before v r =
          update_miss depth d.vertex v (g.size - count_none s.parent_vertex g.size) (not_it v r)

      Reached-still : (v : ℕ) → Reached s.parent_vertex v → Reached after_tree.parent_vertex v
      Reached-still v r = Reached-update s.parent_vertex d.vertex (vertex curr) refl v r

      child : Parent g old after_tree stamped d.vertex
      child =
          let at_vertex = update_hit depth d.vertex (g.size - count_none s.parent_vertex g.size) in
          is_child curr d.edge (update_hit s.parent_vertex d.vertex (vertex curr))
            (update_hit s.parent_edge d.vertex (vertex d.edge)) curr-pending.0
            (Reached-still curr curr-pending.1)
            (omega
              (arith, at_vertex, depth_before curr curr-pending.1, inv.time curr curr-pending.1))
            (g.joins_sym joins)

      moved : (v : ℕ) → v ≢ d.vertex → Parent g old s depth v → Parent g old after_tree stamped v
      moved v other (is_root p e) =
          is_root (update_miss s.parent_vertex d.vertex v (vertex curr) other ∙ p)
            (update_miss s.parent_edge d.vertex v (vertex d.edge) other ∙ e)
      moved v other (is_child u e p q fresh r lt j) =
          is_child u e (update_miss s.parent_vertex d.vertex v (vertex curr) other ∙ p)
            (update_miss s.parent_edge d.vertex v (vertex d.edge) other ∙ q) fresh
            (Reached-still u r)
            (omega (
              arith,
              lt,
              depth_before u r,
              update_miss depth d.vertex v (g.size - count_none s.parent_vertex g.size) other,
            ))
            j

      tree_parents :
          (v : ℕ)
          → Fresh old v
          → Reached after_tree.parent_vertex v
          → Parent g old after_tree stamped v
      tree_parents v fresh r = elim (update-cases s.parent_vertex d.vertex (vertex curr) v) [
        | hit same u ↦ subst (Parent g old after_tree stamped) (sym same) child
        | miss other u ↦ moved v other (inv.parents v fresh (ap is_none_state (sym u) ∙ r))
      ]

      tree_time :
          (v : ℕ)
          → Reached after_tree.parent_vertex v
          → stamped v + count_none after_tree.parent_vertex g.size < g.size
      tree_time v r =
          let fewer =
            count_none-update s.parent_vertex d.vertex (vertex curr) refl g.size (g.joins_lt joins)
              unreached in
          elim (update-cases s.parent_vertex d.vertex (vertex curr) v) [
            | hit same u ↦ omega (
              arith,
              ap stamped same,
              update_hit depth d.vertex (g.size - count_none s.parent_vertex g.size),
              inv.time curr curr-pending.1,
              fewer,
            )
            | miss other u ↦
                let before = ap is_none_state (sym u) ∙ r in
                omega (arith, depth_before v before, inv.time v before, fewer)
          ]

      seen_still :
          (e : ℕ) → is_unvisited (s.state e) ≡ false → is_unvisited (after_tree.state e) ≡ false
      seen_still e h = elim (update-cases s.state d.edge (vertex d.vertex) e) [
        | hit same u ↦ ap is_unvisited u
        | miss other u ↦ ap is_unvisited u ∙ h
      ]

      tree_looked_at :
          (v e w : ℕ)
          → Reached after_tree.parent_vertex v
          → g.Joins e v w
          → (is_unvisited (after_tree.state e) ≡ false) ⊎ Has v (curr ∷ after_tree.dfs)
      tree_looked_at v e w r j = elim (update-cases s.parent_vertex d.vertex (vertex curr) v) [
        | hit same u ↦ inr (subst (λ x. Has x (curr ∷ after_tree.dfs)) (sym same) (there here))
        | miss other u ↦ elim (inv.looked_at v e w (ap is_none_state (sym u) ∙ r) j) [
          | inl seen ↦ inl (seen_still e seen)
          | inr h ↦ inr (under h)
        ]
      ]

      tree_pending :
          (v : ℕ) → Has v (curr ∷ after_tree.dfs) → Fresh old v × Reached after_tree.parent_vertex v
      tree_pending v here = (curr-pending.0, Reached-still curr curr-pending.1)
      tree_pending v (there here) =
          (vertex-Fresh, ap is_none_state (update_hit s.parent_vertex d.vertex (vertex curr)))
      tree_pending v (there (there h)) =
          let (fresh, r) = inv.pending v (there h) in (fresh, Reached-still v r)

      -- The parent edge of a vertex that was reached before stays.
      edge_kept : (w : ℕ) → Reached s.parent_vertex w → after_tree.parent_edge w ≡ s.parent_edge w
      edge_kept w r = update_miss s.parent_edge d.vertex w (vertex d.edge) (not_it w r)

      tree_tree :
          (e w : ℕ)
          → after_tree.state e ≡ vertex w
          → Fresh old w
          → s.extra_edge ≢ vertex e
          → after_tree.parent_edge w ≡ vertex e
      tree_tree e w h fresh other = elim (state_before (vertex d.vertex) e w h) [
        | inl (same, at) ↦
            ap after_tree.parent_edge (sym (vertex-inj at))
            ∙ update_hit s.parent_edge d.vertex (vertex d.edge)
            ∙ ap vertex (sym same)
        | inr (ne, before) ↦ edge_kept w (inv.ends e w before).0 ∙ inv.tree e w before fresh other
      ]

      tree_ends :
          (e w : ℕ)
          → after_tree.state e ≡ vertex w
          → Reached after_tree.parent_vertex w × ((u : ℕ) × g.Joins e u w)
      tree_ends e w h = elim (state_before (vertex d.vertex) e w h) [
        | inl (same, at) ↦ (
          subst (Reached after_tree.parent_vertex) (vertex-inj at)
              (ap is_none_state (update_hit s.parent_vertex d.vertex (vertex curr))),
          (
            curr,
            subst (λ (x : ℕ). g.Joins e curr x) (vertex-inj at)
                (subst (λ (x : ℕ). g.Joins x curr d.vertex) (sym same) joins),
          ),
        )
        | inr (ne, before) ↦ let (r, joined) = inv.ends e w before in (Reached-still w r, joined)
      ]

      tree_inj_old :
          (e e' w : ℕ)
          → after_tree.state e ≡ vertex w
          → after_tree.state e' ≡ vertex w
          → Reached old w
          → e ≡ e'
      tree_inj_old e e' w h h' r =
          let not_new : d.vertex ≢ w =
            λ at. fresh_clash (ap (λ x. is_none_state (old x)) (sym at) ∙ vertex-Fresh) r in
          elim (state_before (vertex d.vertex) e w h) [
            | inl (same, at) ↦ absurd (not_new (vertex-inj at))
            | inr (ne, before) ↦ elim (state_before (vertex d.vertex) e' w h') [
              | inl (same, at) ↦ absurd (not_new (vertex-inj at))
              | inr (ne', before') ↦ inv.inj_old e e' w before before' r
            ]
          ]

      tree_extra :
          (s.extra_edge ≡ none_state)
          ⊎ ((m : ℕ) × (w : ℕ) × (s.extra_edge ≡ vertex m)
              × (after_tree.state m ≡ vertex w)
              × Fresh old w)
      tree_extra = elim inv.extra [
        | inl none_yet ↦ inl none_yet
        | inr (m, w, x, at, fresh) ↦ inr (m, w, x, still (vertex d.vertex) m w at, fresh)
      ]

      tree_regular :
          (e : ℕ)
          → (after_tree.state e ≡ unvisited)
            ⊎ (after_tree.state e ≡ stashed)
            ⊎ ((w : ℕ) × (after_tree.state e ≡ vertex w))
      tree_regular = regular_update (vertex d.vertex) (inr (inr (d.vertex, refl)))

      pub tree_Inv : Inv g old stamped (curr ∷ after_tree.dfs) after_tree
      tree_Inv = record {
        kept = λ v r.
            update_miss s.parent_vertex d.vertex v (vertex curr) (old_not_it v r) ∙ inv.kept v r;
        ends = tree_ends;
        tree = tree_tree;
        inj_old = tree_inj_old;
        extra = tree_extra;
        parents = tree_parents;
        reached = all_reached-update s.parent_edge d.vertex d.edge s.component inv.reached;
        regular = tree_regular;
        looked_at = tree_looked_at;
        pending = tree_pending;
        time = tree_time;
      }
