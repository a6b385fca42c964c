-- ===== src/DataStructures/Cht/Close.antt =====
-- An edge that closes a cycle: the first of the component is kept as the extra edge, and the others
-- go to the stash.
use gigadoram_rs.Base.{
  ℕ, ◌≡◌, ◌≢◌, refl, sym, ap, subst, ◌∙◌, ◌⊎◌, inl, inr, ◌∷◌, Bool, true, false,
}
use gigadoram_rs.DataStructures.Cht.{
  DirectedEdge, StashState, none_state, unvisited, stashed, vertex, is_none_state, update, Search,
}
use gigadoram_rs.DataStructures.Cht.Invariant.{
  Has, hit, miss, update-cases, update_hit, is_unvisited, Reached, Fresh, Graph, Parent, is_root,
  is_child, Inv, Inv-Fresh,
}
use gigadoram_rs.DataStructures.Cht.Reach.{vertex-inj}
use gigadoram_rs.DataStructures.Cht.Visit.{state_before, regular_update, still}

module _ (g : Graph) (old : ℕ → StashState) (depth : ℕ → ℕ) (curr : ℕ) (d : DirectedEdge)
    (s : Search) (inv : Inv g old depth (curr ∷ s.dfs) s) (joins : g.Joins d.edge curr d.vertex)
    (new : s.state d.edge ≡ unvisited) where
  pub seen_after :
      (st : StashState)
      → is_unvisited st ≡ false
      → (e : ℕ) → is_unvisited (s.state e) ≡ false
      → is_unvisited (update s.state d.edge st e) ≡ false
  seen_after st seen e h = elim (update-cases s.state d.edge st e) [
    | hit same u ↦ ap is_unvisited u ∙ seen
    | miss other u ↦ ap is_unvisited u ∙ h
  ]

  looked_after :
      (st : StashState)
      → is_unvisited st ≡ false
      → (v e w : ℕ) → Reached s.parent_vertex v
      → g.Joins e v w
      → (is_unvisited (update s.state d.edge st e) ≡ false) ⊎ Has v (curr ∷ s.dfs)
  looked_after st seen v e w r j = elim (inv.looked_at v e w r j) [
    | inl h ↦ inl (seen_after st seen e h)
    | inr h ↦ inr h
  ]

  pub same-Parent :
      (s' : Search)
      → s'.parent_vertex ≡ s.parent_vertex
      → s'.parent_edge ≡ s.parent_edge
      → (v : ℕ) → Parent g old s depth v
      → Parent g old s' depth v
  same-Parent s' p q v (is_root a b) = is_root (ap (λ f. f v) p ∙ a) (ap (λ f. f v) q ∙ b)
  same-Parent s' p q v (is_child u e a b fresh r lt j) =
      is_child u e (ap (λ f. f v) p ∙ a) (ap (λ f. f v) q ∙ b) fresh
        (ap (λ f. is_none_state (f u)) p ∙ r) lt j

  -- The extra edge of the component was found before.
  pub stash_Inv :
      Inv g old depth (curr ∷ s.dfs) (record s { state = update s.state d.edge stashed })
  stash_Inv =
      let stashed_before : (e w : ℕ)
          → update s.state d.edge stashed e ≡ vertex w
          → s.state e ≡ vertex w =
        λ e w h. elim (state_before g old depth curr d s inv joins new stashed e w h) [
          | inl (same, at) ↦ absurd (not_vertex w at)
          | inr (ne, before) ↦ before
        ] in
      record {
        kept = inv.kept;
        ends = λ e w h. inv.ends e w (stashed_before e w h);
        tree = λ e w h. inv.tree e w (stashed_before e w h);
        inj_old = λ e e' w h h'. inv.inj_old e e' w (stashed_before e w h) (stashed_before e' w h');
        extra = elim inv.extra [
          | inl none_yet ↦ inl none_yet
          | inr (m, w, x, at, fresh) ↦
              inr (m, w, x, still g old depth curr d s inv joins new stashed m w at, fresh)
        ];
        parents = λ v fresh r.
            same-Parent (record s { state = update s.state d.edge stashed }) refl refl v
              (inv.parents v fresh r);
        reached = inv.reached;
        regular = regular_update g old depth curr d s inv joins new stashed (inr (inl refl));
        looked_at = looked_after stashed refl;
        pending = inv.pending;
        time = inv.time;
      }
    where
      not_vertex : (w : ℕ) → stashed ≡ vertex w → ⊥
      not_vertex w h = cc

  module _ (none_yet : s.extra_edge ≡ none_state) (reached : Reached s.parent_vertex d.vertex) where
    abbrev closing : Search
    closing = record s {
      extra_edge = vertex d.edge;
      state = update s.state d.edge (vertex d.vertex);
    }

    closing-Fresh : Fresh old d.vertex
    closing-Fresh = Inv-Fresh g old inv d.edge d.vertex curr reached (g.joins_sym joins) new

    close_ends :
        (e w : ℕ)
        → closing.state e ≡ vertex w
        → Reached s.parent_vertex w × ((u : ℕ) × g.Joins e u w)
    close_ends e w h =
        elim (state_before g old depth curr d s inv joins new (vertex d.vertex) e w h) [
          | inl (same, at) ↦ (
            subst (Reached s.parent_vertex) (vertex-inj at) reached,
            (
              curr,
              subst (λ (x : ℕ). g.Joins e curr x) (vertex-inj at)
                  (subst (λ (x : ℕ). g.Joins x curr d.vertex) (sym same) joins),
            ),
          )
          | inr (ne, before) ↦ inv.ends e w before
        ]

    close_tree :
        (e w : ℕ)
        → closing.state e ≡ vertex w
        → Fresh old w
        → closing.extra_edge ≢ vertex e
        → s.parent_edge w ≡ vertex e
    close_tree e w h fresh other =
        elim (state_before g old depth curr d s inv joins new (vertex d.vertex) e w h) [
          | inl (same, at) ↦ absurd (other (ap vertex (sym same)))
          | inr (ne, before) ↦ inv.tree e w before fresh (λ x. none_vertex e (sym none_yet ∙ x))
        ]
      where
        none_vertex : (e : ℕ) → none_state ≡ vertex e → ⊥
        none_vertex e h = cc

    close_inj_old :
        (e e' w : ℕ)
        → closing.state e ≡ vertex w
        → closing.state e' ≡ vertex w
        → Reached old w
        → e ≡ e'
    close_inj_old e e' w h h' r =
        let not_new : d.vertex ≢ w =
          λ at. clash (ap (λ x. is_none_state (old x)) (sym at) ∙ closing-Fresh) r in
        elim (state_before g old depth curr d s inv joins new (vertex d.vertex) e w h) [
          | inl (same, at) ↦ absurd (not_new (vertex-inj at))
          | inr (ne, before) ↦
              elim (state_before g old depth curr d s inv joins new (vertex d.vertex) e' w h') [
                | inl (same, at) ↦ absurd (not_new (vertex-inj at))
                | inr (ne', before') ↦ inv.inj_old e e' w before before' r
              ]
        ]
      where
        clash : {b : Bool} → b ≡ true → b ≡ false → ⊥
        clash h k = cc

    pub close_Inv : Inv g old depth (curr ∷ s.dfs) closing
    close_Inv = record {
      kept = inv.kept;
      ends = close_ends;
      tree = close_tree;
      inj_old = close_inj_old;
      extra =
          inr (d.edge, d.vertex, refl, update_hit s.state d.edge (vertex d.vertex), closing-Fresh);
      parents = λ v fresh r. same-Parent closing refl refl v (inv.parents v fresh r);
      reached = inv.reached;
      regular =
          regular_update g old depth curr d s inv joins new (vertex d.vertex)
            (inr (inr (d.vertex, refl)));
      looked_at = looked_after (vertex d.vertex) refl;
      pending = inv.pending;
      time = inv.time;
    }
