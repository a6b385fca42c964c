-- ===== src/DataStructures/Cht/Components.antt =====
-- One component after the other: at the end every vertex is reached.
use gigadoram_rs.Base.{
  ℕ, zero, suc, ◌+◌, ◌<◌, ◌≤◌, ◌≡◌, ◌≢◌, refl, sym, ap, subst, ◌∙◌, arith, ◌⊎◌, inl, inr, List, [],
  ◌∷◌, some, Bool, true, false, Bool-cases,
}
use gigadoram_rs.DataStructures.Cht.{
  DirectedEdge, StashState, none_state, root, unvisited, stashed, vertex, is_none_state, update,
  Search, all_reached, search, finish_component, start_at, start_all,
}
use gigadoram_rs.DataStructures.Cht.Invariant.{
  Has, here, there, hit, miss, update-cases, update_hit, update_miss, is_unvisited, count_none,
  Reached, Fresh, Graph, Parent, is_root, Inv,
}
use gigadoram_rs.DataStructures.Cht.Reach.{Reached-update, count_none-update}
use gigadoram_rs.DataStructures.Cht.Stack.{Adjacency, search-Searched}
use gigadoram_rs.DataStructures.Cht.Turn.{Oriented, equal_or}
use gigadoram_rs.DataStructures.Cht.Finish.{finish-Turned}

count_none-bound : (pv : ℕ → StashState) (n : ℕ) → count_none pv n ≤ n
count_none-bound pv zero = omega arith
count_none-bound pv (suc n) = elim (Bool-cases (is_none_state (pv n))) [
  | inl fresh ↦ rw fresh (omega (arith, count_none-bound pv n))
  | inr reached ↦ rw reached (omega (arith, count_none-bound pv n))
]

module _ (g : Graph) (edges : ℕ → List DirectedEdge) (adjacent : Adjacency g edges) (fuel : ℕ)
    (enough : g.size ≤ fuel) where
  abbrev started : ℕ → Search → Search
  started v s = record s {
    parent_vertex = update s.parent_vertex v root;
    parent_edge = update s.parent_edge v root;
    extra_edge = none_state;
    component = [];
    dfs = v ∷ [];
  }

  module _ (v : ℕ) (s : Search) (oriented : Oriented g s) (below : v < g.size)
      (new : s.parent_vertex v ≡ none_state) where
    root_not : (w : ℕ) → Reached s.parent_vertex w → w ≢ v
    root_not w r e = clash (s.parent_vertex w) r (ap s.parent_vertex e ∙ new)
      where
        clash : (p : StashState) → is_none_state p ≡ false → p ≡ none_state → ⊥
        clash p a b = cc

    not_both : {P : Type 0} {b : Bool} → b ≡ true → b ≡ false → P
    not_both h k = absurd cc

    root-Parent :
        (w : ℕ)
        → Fresh s.parent_vertex w
        → Reached (started v s).parent_vertex w
        → Parent g s.parent_vertex (started v s) (λ x. 0) w
    root-Parent w fresh r = elim (update-cases s.parent_vertex v root w) [
      | hit same u ↦
          is_root u (ap (update s.parent_edge v root) same ∙ update_hit s.parent_edge v root)
      | miss other u ↦ not_both fresh (ap is_none_state (sym u) ∙ r)
    ]

    start_looked_at :
        (x e w : ℕ)
        → Reached (started v s).parent_vertex x
        → g.Joins e x w
        → (is_unvisited (s.state e) ≡ false) ⊎ Has x (v ∷ [])
    start_looked_at x e w r j = elim (update-cases s.parent_vertex v root x) [
      | hit same u ↦ inr (subst (λ (y : ℕ). Has y (v ∷ [])) (sym same) here)
      | miss other u ↦ inl (oriented.looked_at x e w (ap is_none_state (sym u) ∙ r) j)
    ]

    start_pending :
        (x : ℕ) → Has x (v ∷ []) → Fresh s.parent_vertex x × Reached (started v s).parent_vertex x
    start_pending x here =
        (ap is_none_state new, ap is_none_state (update_hit s.parent_vertex x root))
    start_pending x (there h) = elim h [ ]

    fewer : suc (count_none (started v s).parent_vertex g.size) ≤ g.size
    fewer = omega (
      arith,
      count_none-update s.parent_vertex v root refl g.size below new,
      count_none-bound s.parent_vertex g.size,
    )

    start_Inv : Inv g s.parent_vertex (λ x. 0) (v ∷ []) (started v s)
    start_Inv = record {
      kept = λ x r. update_miss s.parent_vertex v x root (root_not x r);
      ends = λ e w h.
          let (r, joined) = oriented.ends e w h in
          (Reached-update s.parent_vertex v root refl w r, joined);
      tree = λ e w h fresh other. not_both fresh (oriented.ends e w h).0;
      inj_old = λ e e' w h h' r. oriented.inj e e' w h h';
      extra = inl refl;
      parents = root-Parent;
      reached = refl;
      regular = oriented.regular;
      looked_at = start_looked_at;
      pending = start_pending;
      time = λ x r. omega (arith, fewer);
    }

  -- What a component adds.
  pub record Grown (before out : Search) : Type 0 where
    pub oriented : Oriented g out
    pub still : (v : ℕ) → Reached before.parent_vertex v → Reached out.parent_vertex v

  start_at-Grown :
      (v : ℕ) (p : StashState) (s : Search)
      → s.parent_vertex v ≡ p
      → Oriented g s
      → v < g.size
      → (out : Search) × (start_at fuel edges v p s ≡ some out)
        × Grown s out
        × Reached out.parent_vertex v
  unfolding start_at
  start_at-Grown v none_state s h oriented below =
      let (searched, run, found) =
        search-Searched g s.parent_vertex edges adjacent fuel (v ∷ []) (started v s) (λ x. 0)
          (start_Inv v s oriented below h) (omega (arith, fewer v s oriented below h, enough)) in
      let (out, finish, turned) =
        finish-Turned g s.parent_vertex found.depth fuel searched found.inv enough in
      (
        out,
        together searched out run found.inv.reached finish,
        record {
          oriented = turned.oriented;
          still = λ w r.
              moved turned.same w (found.still w (Reached-update s.parent_vertex v root refl w r));
        },
        moved turned.same v (found.still v (ap is_none_state (update_hit s.parent_vertex v root))),
      )
    where
      moved : {f f' : ℕ → StashState} → f' ≡ f → (w : ℕ) → Reached f w → Reached f' w
      moved same w r = ap (λ k. is_none_state (k w)) same ∙ r

      together :
          (searched out : Search)
          → search fuel edges (v ∷ []) (started v s) ≡ some searched
          → all_reached searched.parent_edge searched.component ≡ true
          → finish_component fuel searched.extra_edge searched ≡ some out
          → start_at fuel edges v none_state s ≡ some out
      together searched out run checked finish = rw (run, checked) finish
  start_at-Grown v root s h oriented below =
      (s, refl, record { oriented = oriented; still = λ w r. r }, ap is_none_state h)
  start_at-Grown v unvisited s h oriented below =
      (s, refl, record { oriented = oriented; still = λ w r. r }, ap is_none_state h)
  start_at-Grown v stashed s h oriented below =
      (s, refl, record { oriented = oriented; still = λ w r. r }, ap is_none_state h)
  start_at-Grown v (vertex u) s h oriented below =
      (s, refl, record { oriented = oriented; still = λ w r. r }, ap is_none_state h)

  pub start_all-Grown :
      (count v : ℕ) (s : Search)
      → Oriented g s
      → v + count ≤ g.size
      → ((w : ℕ) → w < v → Reached s.parent_vertex w)
      → (out : Search) × (start_all fuel edges v count s ≡ some out)
        × Oriented g out
        × ((w : ℕ) → w < v + count → Reached out.parent_vertex w)
  unfolding start_all
  start_all-Grown zero v s oriented below reached =
      (s, refl, oriented, λ w h. reached w (omega arith))
  start_all-Grown (suc count) v s oriented below reached =
      let (next, run, grown, at) =
        start_at-Grown v (s.parent_vertex v) s refl oriented (omega arith) in
      let (out, rest, good, all) =
        start_all-Grown count (suc v) next grown.oriented (omega arith)
          (below_next next grown.still at) in
      (out, rw run rest, good, λ w h. all w (omega (arith, h)))
    where
      below_next :
          (next : Search)
          → ((w : ℕ) → Reached s.parent_vertex w → Reached next.parent_vertex w)
          → Reached next.parent_vertex v
          → (w : ℕ) → w < suc v
          → Reached next.parent_vertex w
      below_next next still at w h = elim (equal_or w v) [
        | inl same ↦ subst (λ (x : ℕ). Reached next.parent_vertex x) (sym same) at
        | inr other ↦ still w (reached w (omega (arith, h, other)))
      ]
