-- ===== src/DataStructures/Cht/Loop.antt =====
-- The loops of the search: over the edges of a vertex, and over the stack.
use gigadoram_rs.Base.{ℕ, ◌+◌, ◌≡◌, refl, ap, ◌∙◌, arith, List, [], ◌∷◌, false, length}
use gigadoram_rs.DataStructures.Cht.{
  DirectedEdge, StashState, none_state, root, unvisited, stashed, vertex, is_none_state, update,
  Search, close_cycle, visit_unvisited, visit_on, visit_edges,
}
use gigadoram_rs.DataStructures.Cht.Invariant.{
  Has, here, there, update_hit, is_unvisited, count_none, Reached, Graph, Inv, Leaving, AllSeen,
}
use gigadoram_rs.DataStructures.Cht.Reach.{count_none-update, Reached-update}
use gigadoram_rs.DataStructures.Cht.Visit.{tree_Inv, stamped}
use gigadoram_rs.DataStructures.Cht.Close.{stash_Inv, close_Inv, seen_after}

-- What a step of the search keeps: the invariant for some depths, and what has been seen; the
-- stack and the unreached vertices have the same total.
pub record Kept (g : Graph) (old : ℕ → StashState) (stack : List ℕ) (before s : Search)
    : Type 0 where
  pub depth : ℕ → ℕ
  pub inv : Inv g old depth stack s
  pub seen : (e : ℕ) → is_unvisited (before.state e) ≡ false → is_unvisited (s.state e) ≡ false
  pub still : (v : ℕ) → Reached before.parent_vertex v → Reached s.parent_vertex v
  pub total :
      length s.dfs + count_none s.parent_vertex g.size
      ≡ length before.dfs + count_none before.parent_vertex g.size

module _ (g : Graph) (old : ℕ → StashState) (curr : ℕ) (d : DirectedEdge) where
  abbrev Seen : Search → Type 0
  Seen s = is_unvisited (s.state d.edge) ≡ false

  Step : Search → Search → Type 0
  Step s next = Kept g old (curr ∷ next.dfs) s next × Seen next

  module _ (s : Search) (depth : ℕ → ℕ) (inv : Inv g old depth (curr ∷ s.dfs) s)
      (joins : g.Joins d.edge curr d.vertex) (new : s.state d.edge ≡ unvisited) where
    at_edge :
        (st : StashState)
        → is_unvisited st ≡ false
        → is_unvisited (update s.state d.edge st d.edge) ≡ false
    at_edge st h = ap is_unvisited (update_hit s.state d.edge st) ∙ h

    close_Step :
        Reached s.parent_vertex d.vertex
        → (x : StashState) → s.extra_edge ≡ x
        → Step s (close_cycle d x s)
    unfolding Step
    close_Step r none_state h = (
      record {
        depth = depth;
        inv = close_Inv g old depth curr d s inv joins new h r;
        seen = seen_after g old depth curr d s inv joins new (vertex d.vertex) refl;
        still = λ v k. k;
        total = refl;
      },
      at_edge (vertex d.vertex) refl,
    )
    close_Step r _ h = (
      record {
        depth = depth;
        inv = stash_Inv g old depth curr d s inv joins new;
        seen = seen_after g old depth curr d s inv joins new stashed refl;
        still = λ v k. k;
        total = refl;
      },
      at_edge stashed refl,
    )

    unvisited_Step :
        (p : StashState) → s.parent_vertex d.vertex ≡ p → Step s (visit_unvisited curr d p s)
    unfolding Step
    unvisited_Step none_state h = (
      record {
        depth = stamped g old depth curr d s;
        inv = tree_Inv g old depth curr d s inv joins new h;
        seen = seen_after g old depth curr d s inv joins new (vertex d.vertex) refl;
        still = Reached-update s.parent_vertex d.vertex (vertex curr) refl;
        total = omega (
          arith,
          count_none-update s.parent_vertex d.vertex (vertex curr) refl g.size (g.joins_lt joins) h,
        );
      },
      at_edge (vertex d.vertex) refl,
    )
    unvisited_Step root h = close_Step (ap is_none_state h) s.extra_edge refl
    unvisited_Step unvisited h = close_Step (ap is_none_state h) s.extra_edge refl
    unvisited_Step stashed h = close_Step (ap is_none_state h) s.extra_edge refl
    unvisited_Step (vertex v) h = close_Step (ap is_none_state h) s.extra_edge refl

  visit_on-Step :
      (s : Search) (depth : ℕ → ℕ)
      → Inv g old depth (curr ∷ s.dfs) s
      → g.Joins d.edge curr d.vertex
      → (x : StashState) → s.state d.edge ≡ x
      → Step s (visit_on curr d x s)
  unfolding Step
  visit_on-Step s depth inv joins unvisited h =
      unvisited_Step s depth inv joins h (s.parent_vertex d.vertex) refl
  visit_on-Step s depth inv joins none_state h = (
    record { depth = depth; inv = inv; seen = λ e k. k; still = λ v k. k; total = refl },
    ap is_unvisited h,
  )
  visit_on-Step s depth inv joins root h = (
    record { depth = depth; inv = inv; seen = λ e k. k; still = λ v k. k; total = refl },
    ap is_unvisited h,
  )
  visit_on-Step s depth inv joins stashed h = (
    record { depth = depth; inv = inv; seen = λ e k. k; still = λ v k. k; total = refl },
    ap is_unvisited h,
  )
  visit_on-Step s depth inv joins (vertex v) h = (
    record { depth = depth; inv = inv; seen = λ e k. k; still = λ v k. k; total = refl },
    ap is_unvisited h,
  )

module _ (g : Graph) (old : ℕ → StashState) (curr : ℕ) where
  pub visit_edges-Kept :
      (ds : List DirectedEdge) (s : Search) (depth : ℕ → ℕ)
      → Inv g old depth (curr ∷ s.dfs) s
      → Leaving g curr ds
      → (let next = visit_edges curr ds s in Kept g old (curr ∷ next.dfs) s next × AllSeen ds next)
  unfolding visit_edges Step
  visit_edges-Kept [] s depth inv leaving = (
    record { depth = depth; inv = inv; seen = λ e k. k; still = λ v k. k; total = refl },
    λ d h. elim h [ ],
  )
  visit_edges-Kept (d ∷ ds) s depth inv leaving =
      let (kept, seen) =
        visit_on-Step g old curr d s depth inv (leaving d here) (s.state d.edge) refl in
      let (rest, all) =
        visit_edges-Kept ds (visit_on curr d (s.state d.edge) s) kept.depth kept.inv
          (λ c h. leaving c (there h)) in
      (
        record {
          depth = rest.depth;
          inv = rest.inv;
          seen = λ e k. rest.seen e (kept.seen e k);
          still = λ v k. rest.still v (kept.still v k);
          total = rest.total ∙ kept.total;
        },
        λ c h.
            each (visit_edges curr ds (visit_on curr d (s.state d.edge) s)) (rest.seen d.edge seen)
              all c h,
      )
    where
      each :
          (s : Search)
          → is_unvisited (s.state d.edge) ≡ false
          → AllSeen ds s
          → (c : DirectedEdge) → Has c (d ∷ ds)
          → is_unvisited (s.state c.edge) ≡ false
      each s k all d here = k
      each s k all c (there h) = all c h
