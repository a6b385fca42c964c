-- ===== src/DataStructures/Cht/Turn.antt =====
-- Turning the edges on the path to the root frees the vertex that two edges ended at.
use gigadoram_rs.Base.{
  ℕ, ◌<◌, ◌≤◌, ◌≡◌, ◌≢◌, sym, ap, subst, ◌∙◌, arith, ◌⊎◌, inl, inr, Bool, true, false, ◌==◌, ==_iff,
  Bool-cases,
}
use gigadoram_rs.DataStructures.Cht.{
  StashState, none_state, root, unvisited, stashed, vertex, update, Search,
}
use gigadoram_rs.DataStructures.Cht.Invariant.{
  hit, miss, update-cases, update_hit, update_miss, is_unvisited, Reached, Fresh, Graph, Parent,
  is_root, is_child,
}
use gigadoram_rs.DataStructures.Cht.Reach.{vertex-inj}

pub equal_or : (e m : ℕ) → (e ≡ m) ⊎ (e ≢ m)
equal_or e m = elim (Bool-cases (e == m)) [
  | inl same ↦ inl ((==_iff e m).0 same)
  | inr other ↦ inr (λ same. true_false ((==_iff e m).1 same) other)
]
  where
    true_false : {b : Bool} → b ≡ true → b ≡ false → ⊥
    true_false h k = cc

pub root_vertex : {u : ℕ} → root ≡ vertex u → ⊥
root_vertex k = cc

pub none_vertex : {u : ℕ} → none_state ≡ vertex u → ⊥
none_vertex k = cc

-- Every edge at a reached vertex is stashed or ends at a reached vertex of its own.
pub record Oriented (g : Graph) (s : Search) : Type 0 where
  pub ends :
      (e w : ℕ) → s.state e ≡ vertex w → Reached s.parent_vertex w × ((u : ℕ) × g.Joins e u w)
  pub inj : (e e' w : ℕ) → s.state e ≡ vertex w → s.state e' ≡ vertex w → e ≡ e'
  pub regular :
      (e : ℕ) → (s.state e ≡ unvisited) ⊎ (s.state e ≡ stashed) ⊎ ((w : ℕ) × (s.state e ≡ vertex w))
  pub looked_at :
      (v e w : ℕ) → Reached s.parent_vertex v → g.Joins e v w → is_unvisited (s.state e) ≡ false

module _ (g : Graph) (old : ℕ → StashState) (depth : ℕ → ℕ) where
  -- The edge `mover` ends at `v`, where the tree edge of `v` may end too.
  pub record Turn (mover v : ℕ) (s : Search) : Type 0 where
    pub fresh : Fresh old v
    pub reached : Reached s.parent_vertex v
    pub at : s.state mover ≡ vertex v
    pub ends :
        (e w : ℕ) → s.state e ≡ vertex w → Reached s.parent_vertex w × ((u : ℕ) × g.Joins e u w)
    pub regular :
        (e : ℕ)
        → (s.state e ≡ unvisited) ⊎ (s.state e ≡ stashed) ⊎ ((w : ℕ) × (s.state e ≡ vertex w))
    pub looked_at :
        (u e w : ℕ) → Reached s.parent_vertex u → g.Joins e u w → is_unvisited (s.state e) ≡ false
    pub parents : (u : ℕ) → Fresh old u → Reached s.parent_vertex u → Parent g old s depth u
    pub below :
        (e w : ℕ)
        → e ≢ mover
        → s.state e ≡ vertex w
        → Fresh old w
        → depth w ≤ depth v
        → s.parent_edge w ≡ vertex e
    pub inj :
        (e e' w : ℕ)
        → e ≢ mover
        → e' ≢ mover
        → s.state e ≡ vertex w
        → s.state e' ≡ vertex w
        → e ≡ e'

  module _ (mover v : ℕ) (s : Search) (turn : Turn mover v s) where
    -- At the root no tree edge ends.
    root_only : s.parent_vertex v ≡ root → (e : ℕ) → s.state e ≡ vertex v → e ≡ mover
    root_only at_root e h = elim (equal_or e mover) [
      | inl same ↦ same
      | inr other ↦ absurd (
          clash (turn.below e v other h turn.fresh (omega arith))
            (turn.parents v turn.fresh turn.reached))
    ]
      where
        clash : s.parent_edge v ≡ vertex e → Parent g old s depth v → ⊥
        clash h (is_root p q) = root_vertex (sym q ∙ h)
        clash h (is_child u c p q fresh r lt j) = root_vertex (sym at_root ∙ p)

    pub at_root-Oriented : s.parent_vertex v ≡ root → Oriented g s
    at_root-Oriented at_root = record {
      ends = turn.ends;
      inj = both;
      regular = turn.regular;
      looked_at = turn.looked_at;
    }
      where
        both : (e e' w : ℕ) → s.state e ≡ vertex w → s.state e' ≡ vertex w → e ≡ e'
        both e e' w h h' = elim (equal_or e mover) [
          | inl same ↦
              same ∙ sym (root_only at_root e' (h' ∙ sym (ap s.state (sym same) ∙ h) ∙ turn.at))
          | inr other ↦ elim (equal_or e' mover) [
            | inl same' ↦
                root_only at_root e (h ∙ sym (ap s.state (sym same') ∙ h') ∙ turn.at) ∙ sym same'
            | inr other' ↦ turn.inj e e' w other other' h h'
          ]
        ]

    module _ (u e0 : ℕ) (q : s.parent_edge v ≡ vertex e0) (fresh : Fresh old u)
        (r : Reached s.parent_vertex u) (lt : depth u < depth v) (joins : g.Joins e0 v u) where
      abbrev pub turned : Search
      turned = record s { state = update s.state e0 (vertex u) }

      turned_before :
          (e w : ℕ)
          → turned.state e ≡ vertex w
          → ((e ≡ e0) × (u ≡ w)) ⊎ ((e ≢ e0) × (s.state e ≡ vertex w))
      turned_before e w h = elim (update-cases s.state e0 (vertex u) e) [
        | hit same k ↦ inl (same, vertex-inj (sym k ∙ h))
        | miss other k ↦ inr (other, sym k ∙ h)
      ]

      turned_ends :
          (e w : ℕ)
          → turned.state e ≡ vertex w
          → Reached s.parent_vertex w × ((x : ℕ) × g.Joins e x w)
      turned_ends e w h = elim (turned_before e w h) [
        | inl (same, at) ↦ (
          subst (Reached s.parent_vertex) at r,
          (
            v,
            subst (λ (x : ℕ). g.Joins e v x) at (subst (λ (x : ℕ). g.Joins x v u) (sym same) joins),
          ),
        )
        | inr (other, before) ↦ turn.ends e w before
      ]

      turned_below :
          (e w : ℕ)
          → e ≢ e0
          → turned.state e ≡ vertex w
          → Fresh old w
          → depth w ≤ depth u
          → s.parent_edge w ≡ vertex e
      turned_below e w ne h fresh_w le = elim (turned_before e w h) [
        | inl (same, at) ↦ absurd (ne same)
        | inr (other, before) ↦ elim (equal_or e mover) [
          | inl same ↦
              let at_v = vertex-inj (sym before ∙ ap s.state same ∙ turn.at) in
              absurd (omega (arith, ap depth at_v, lt, le))
          | inr not_mover ↦ turn.below e w not_mover before fresh_w (omega (arith, lt, le))
        ]
      ]

      -- Another edge at the vertex of the mover is its tree edge.
      tree_edge : (e w : ℕ) → e ≢ mover → s.state e ≡ vertex w → s.state mover ≡ vertex w → e ≡ e0
      tree_edge e w ne h at =
          let at_v = vertex-inj (sym at ∙ turn.at) in
          let h' = h ∙ ap vertex at_v in
          vertex-inj (sym (turn.below e v ne h' turn.fresh (omega arith)) ∙ q)

      turned_inj :
          (e e' w : ℕ)
          → e ≢ e0
          → e' ≢ e0
          → turned.state e ≡ vertex w
          → turned.state e' ≡ vertex w
          → e ≡ e'
      turned_inj e e' w ne ne' h h' =
          let before = sym (update_miss s.state e0 e (vertex u) ne) ∙ h in
          let before' = sym (update_miss s.state e0 e' (vertex u) ne') ∙ h' in
          elim (equal_or e mover) [
            | inl same ↦ elim (equal_or e' mover) [
              | inl same' ↦ same ∙ sym same'
              | inr other' ↦
                  absurd (ne' (tree_edge e' w other' before' (ap s.state (sym same) ∙ before)))
            ]
            | inr other ↦ elim (equal_or e' mover) [
              | inl same' ↦
                  absurd (ne (tree_edge e w other before (ap s.state (sym same') ∙ before')))
              | inr other' ↦ turn.inj e e' w other other' before before'
            ]
          ]

      pub turned-Turn : Turn e0 u turned
      turned-Turn = record {
        fresh = fresh;
        reached = r;
        at = update_hit s.state e0 (vertex u);
        ends = turned_ends;
        regular = λ e. elim (update-cases s.state e0 (vertex u) e) [
          | hit same k ↦ inr (inr (u, k))
          | miss other k ↦
              subst (λ x. (x ≡ unvisited) ⊎ (x ≡ stashed) ⊎ ((w : ℕ) × (x ≡ vertex w))) (sym k)
                (turn.regular e)
        ];
        looked_at = λ x e w rx j. elim (update-cases s.state e0 (vertex u) e) [
          | hit same k ↦ ap is_unvisited k
          | miss other k ↦ ap is_unvisited k ∙ turn.looked_at x e w rx j
        ];
        parents = λ x f rx. again x (turn.parents x f rx);
        below = turned_below;
        inj = turned_inj;
      }
        where
          again : (x : ℕ) → Parent g old s depth x → Parent g old turned depth x
          again x (is_root p e) = is_root p e
          again x (is_child y e p k f ry less j) = is_child y e p k f ry less j
