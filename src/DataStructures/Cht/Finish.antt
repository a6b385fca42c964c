-- ===== src/DataStructures/Cht/Finish.antt =====
-- Following the path to the root, and the end of a component.
use gigadoram_rs.Base.{
  ℕ, zero, suc, ◌≤◌, ◌≡◌, ◌≢◌, refl, sym, ap, ◌∙◌, arith, inl, inr, [], some, false, Bool-cases,
}
use gigadoram_rs.DataStructures.Cht.{
  StashState, none_state, root, unvisited, stashed, vertex, is_none_state, update, Search, reorient,
  finish_component,
}
use gigadoram_rs.DataStructures.Cht.Invariant.{
  is_unvisited, Reached, Fresh, Graph, Parent, is_root, is_child, Inv,
}
use gigadoram_rs.DataStructures.Cht.Reach.{vertex-inj}
use gigadoram_rs.DataStructures.Cht.Turn.{
  Oriented, Turn, at_root-Oriented, turned, turned-Turn, root_vertex, none_vertex,
}

module _ (g : Graph) (old : ℕ → StashState) (depth : ℕ → ℕ) where
  pub record Turned (before out : Search) : Type 0 where
    pub oriented : Oriented g out
    pub same : out.parent_vertex ≡ before.parent_vertex

  -- The path to the root gets shallower at each step.
  pub reorient-Turned :
      (fuel mover v : ℕ) (p : StashState) (s : Search)
      → s.parent_vertex v ≡ p
      → Turn g old depth mover v s
      → Parent g old s depth v
      → depth v ≤ fuel
      → (out : Search) × (reorient fuel v p s ≡ some out) × Turned s out
  unfolding reorient
  reorient-Turned fuel mover v none_state s h turn parent le =
      absurd (reached_none (s.parent_vertex v) turn.reached h)
    where
      reached_none : (x : StashState) → is_none_state x ≡ false → x ≡ none_state → ⊥
      reached_none x r k = cc
  reorient-Turned fuel mover v root s h turn parent le =
      (s, refl, record { oriented = at_root-Oriented g old depth mover v s turn h; same = refl })
  reorient-Turned fuel mover v unvisited s h turn parent le = absurd (no_parent parent h)
    where
      no_parent : Parent g old s depth v → s.parent_vertex v ≡ unvisited → ⊥
      no_parent (is_root p q) k = cc
      no_parent (is_child u e p q fresh r lt j) k = cc
  reorient-Turned fuel mover v stashed s h turn parent le = absurd (no_parent parent h)
    where
      no_parent : Parent g old s depth v → s.parent_vertex v ≡ stashed → ⊥
      no_parent (is_root p q) k = cc
      no_parent (is_child u e p q fresh r lt j) k = cc
  reorient-Turned zero mover v (vertex x) s h turn (is_root p q) le =
      absurd (root_vertex (sym p ∙ h))
  reorient-Turned zero mover v (vertex x) s h turn (is_child u e p q fresh r lt j) le =
      absurd (omega (arith, lt, le))
  reorient-Turned (suc fuel) mover v (vertex x) s h turn (is_root p q) le =
      absurd (root_vertex (sym p ∙ h))
  reorient-Turned (suc fuel) mover v (vertex x) s h turn (is_child u e p q fresh r lt j) le =
      let next = turned g old depth mover v s turn u e q fresh r lt j in
      let (out, run, result) =
        reorient-Turned fuel e u (s.parent_vertex u) next refl
          (turned-Turn g old depth mover v s turn u e q fresh r lt j)
          ((turned-Turn g old depth mover v s turn u e q fresh r lt j).parents u fresh r)
          (omega (arith, lt, le)) in
      (
        out,
        ap (λ y. reorient (suc fuel) v (vertex y) s) (vertex-inj (sym h ∙ p)) ∙ step u e q ∙ run,
        record { oriented = result.oriented; same = result.same },
      )
    where
      step :
          (u e : ℕ)
          → s.parent_edge v ≡ vertex e
          → reorient (suc fuel) v (vertex u) s
            ≡ reorient fuel u (s.parent_vertex u) (record s { state = update s.state e (vertex u) })
      step u e q = rw q refl

  -- After the search: at most one vertex has two edges, and the extra edge is one of them.
  pub finish-Turned :
      (fuel : ℕ) (s : Search)
      → Inv g old depth [] s
      → g.size ≤ fuel
      → (out : Search) × (finish_component fuel s.extra_edge s ≡ some out) × Turned s out
  unfolding finish_component
  finish-Turned fuel s inv le = elim inv.extra [
    | inl none_yet ↦ (
      s,
      ap (λ x. finish_component fuel x s) none_yet,
      record { oriented = no_extra none_yet; same = refl },
    )
    | inr (m, w, x, at, fresh) ↦
        let start = turning m w x at fresh in
        let (out, run, result) =
          reorient-Turned fuel m w (s.parent_vertex w) s refl start
            (inv.parents w fresh start.reached) (omega (arith, inv.time w start.reached, le)) in
        (out, ap (λ x. finish_component fuel x s) x ∙ step m w at ∙ run, result)
  ]
    where
      looked :
          (v e w : ℕ) → Reached s.parent_vertex v → g.Joins e v w → is_unvisited (s.state e) ≡ false
      looked v e w r j = elim (inv.looked_at v e w r j) [ inl seen ↦ seen | inr h ↦ elim h [ ] ]

      -- Two edges that are not the extra edge end at different vertices.
      apart :
          (e e' w : ℕ)
          → s.extra_edge ≢ vertex e
          → s.extra_edge ≢ vertex e'
          → s.state e ≡ vertex w
          → s.state e' ≡ vertex w
          → e ≡ e'
      apart e e' w ne ne' h h' = elim (Bool-cases (is_none_state (old w))) [
        | inl fresh ↦ vertex-inj (sym (inv.tree e w h fresh ne) ∙ inv.tree e' w h' fresh ne')
        | inr before ↦ inv.inj_old e e' w h h' before
      ]

      no_extra : s.extra_edge ≡ none_state → Oriented g s
      no_extra none_yet = record {
        ends = inv.ends;
        inj = λ e e' w.
            apart e e' w (λ k. none_vertex (sym none_yet ∙ k))
              (λ k. none_vertex (sym none_yet ∙ k));
        regular = inv.regular;
        looked_at = looked;
      }

      turning :
          (m w : ℕ)
          → s.extra_edge ≡ vertex m
          → s.state m ≡ vertex w
          → Fresh old w
          → Turn g old depth m w s
      turning m w x at fresh = record {
        fresh = fresh;
        reached = (inv.ends m w at).0;
        at = at;
        ends = inv.ends;
        regular = inv.regular;
        looked_at = looked;
        parents = inv.parents;
        below = λ e v ne h f le. inv.tree e v h f (λ k. ne (vertex-inj (sym k ∙ x)));
        inj = λ e e' v ne ne'.
            apart e e' v (λ k. ne (vertex-inj (sym k ∙ x))) (λ k. ne' (vertex-inj (sym k ∙ x)));
      }

      step :
          (m w : ℕ)
          → s.state m ≡ vertex w
          → finish_component fuel (vertex m) s ≡ reorient fuel w (s.parent_vertex w) s
      step m w at = rw at refl
