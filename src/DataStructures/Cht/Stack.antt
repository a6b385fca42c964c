-- ===== src/DataStructures/Cht/Stack.antt =====
-- The loop over the stack ends, and leaves no edge of a reached vertex unseen.
use gigadoram_rs.Base.{
  ℕ, zero, suc, ◌+◌, ◌≤◌, ◌≡◌, refl, ap, arith, ◌⊎◌, inl, inr, List, [], ◌∷◌, ◌++◌, some, Bool,
  true, false, if◌then◌else◌, length,
}
use gigadoram_rs.DataStructures.Cht.{
  DirectedEdge, StashState, is_none_state, Search, all_reached, visit_edges, search,
}
use gigadoram_rs.DataStructures.Cht.Invariant.{
  Has, here, there, is_unvisited, count_none, Reached, Graph, Parent, is_root, is_child, Inv,
  Leaving, AllSeen,
}
use gigadoram_rs.DataStructures.Cht.Loop.{visit_edges-Kept}

all_reached-append :
    (pe : ℕ → StashState) (c : ℕ) (cs : List ℕ)
    → is_none_state (pe c) ≡ false
    → all_reached pe cs ≡ true
    → all_reached pe (cs ++ (c ∷ [])) ≡ true
all_reached-append pe c [] r h = rw r refl
all_reached-append pe c (x ∷ xs) r h =
    both (is_none_state (pe x)) (λ k. all_reached-append pe c xs r k) h
  where
    both :
        {a b : Bool} (test : Bool)
        → (a ≡ true → b ≡ true)
        → (if test then false else a) ≡ true
        → (if test then false else b) ≡ true
    both true f k = k
    both false f k = f k

-- The adjacency lists of a graph.
pub record Adjacency (g : Graph) (edges : ℕ → List DirectedEdge) : Type 0 where
  pub sound : (v : ℕ) → Leaving g v (edges v)
  pub complete : (e v w : ℕ) → g.Joins e v w → Has (record { edge = e; vertex = w }) (edges v)

module _ (g : Graph) (old : ℕ → StashState) (edges : ℕ → List DirectedEdge)
    (adjacent : Adjacency g edges) where
  abbrev popped : ℕ → List ℕ → Search → Search
  popped curr rest s = record s { component = s.component ++ (curr ∷ []); dfs = rest }

  popped-Inv :
      (depth : ℕ → ℕ) (curr : ℕ) (rest : List ℕ) (s : Search)
      → Inv g old depth (curr ∷ rest) s
      → Inv g old depth (curr ∷ rest) (popped curr rest s)
  popped-Inv depth curr rest s inv = record {
    kept = inv.kept;
    ends = inv.ends;
    tree = inv.tree;
    inj_old = inv.inj_old;
    extra = inv.extra;
    parents = λ v fresh r. again v (inv.parents v fresh r);
    reached =
        all_reached-append s.parent_edge curr s.component
          (parent_reached (inv.parents curr (inv.pending curr here).0 (inv.pending curr here).1))
          inv.reached;
    regular = inv.regular;
    looked_at = inv.looked_at;
    pending = inv.pending;
    time = inv.time;
  }
    where
      parent_reached : Parent g old s depth curr → is_none_state (s.parent_edge curr) ≡ false
      parent_reached (is_root p e) = ap is_none_state e
      parent_reached (is_child u e p q fresh r lt j) = ap is_none_state q

      again : (v : ℕ) → Parent g old s depth v → Parent g old (popped curr rest s) depth v
      again v (is_root p e) = is_root p e
      again v (is_child u e p q fresh r lt j) = is_child u e p q fresh r lt j

  -- The edges of the current vertex have all been seen.
  done-Inv :
      (depth : ℕ → ℕ) (curr : ℕ) (stack : List ℕ) (s : Search)
      → Inv g old depth (curr ∷ stack) s
      → AllSeen (edges curr) s
      → Inv g old depth stack s
  done-Inv depth curr stack s inv all = record {
    kept = inv.kept;
    ends = inv.ends;
    tree = inv.tree;
    inj_old = inv.inj_old;
    extra = inv.extra;
    parents = inv.parents;
    reached = inv.reached;
    regular = inv.regular;
    looked_at = λ v e w r j. drop v e w j (inv.looked_at v e w r j);
    pending = λ v h. inv.pending v (there h);
    time = inv.time;
  }
    where
      drop :
          (v e w : ℕ)
          → g.Joins e v w
          → (is_unvisited (s.state e) ≡ false) ⊎ Has v (curr ∷ stack)
          → (is_unvisited (s.state e) ≡ false) ⊎ Has v stack
      drop v e w j (inl seen) = inl seen
      drop v e w j (inr here) =
          inl (all (record { edge = e; vertex = w }) (adjacent.complete e v w j))
      drop v e w j (inr (there h)) = inr h

  pub record Searched (before out : Search) : Type 0 where
    pub depth : ℕ → ℕ
    pub inv : Inv g old depth [] out
    pub seen : (e : ℕ) → is_unvisited (before.state e) ≡ false → is_unvisited (out.state e) ≡ false
    pub still : (v : ℕ) → Reached before.parent_vertex v → Reached out.parent_vertex v

  -- Fuel for every vertex that is on the stack or unreached is enough.
  pub search-Searched :
      (fuel : ℕ) (stack : List ℕ) (s : Search) (depth : ℕ → ℕ)
      → Inv g old depth stack s
      → length stack + count_none s.parent_vertex g.size ≤ fuel
      → (out : Search) × (search fuel edges stack s ≡ some out) × Searched s out
  unfolding search
  search-Searched fuel [] s depth inv h =
      (s, refl, record { depth = depth; inv = inv; seen = λ e k. k; still = λ v k. k })
  search-Searched zero (curr ∷ rest) s depth inv h = absurd (omega arith)
  search-Searched (suc fuel) (curr ∷ rest) s depth inv h =
      let start = popped curr rest s in
      let (kept, all) =
        visit_edges-Kept g old curr (edges curr) start depth (popped-Inv depth curr rest s inv)
          (adjacent.sound curr) in
      let next = visit_edges curr (edges curr) start in
      let (out, run, found) =
        search-Searched fuel next.dfs next kept.depth
          (done-Inv kept.depth curr next.dfs next kept.inv all) (omega (arith, kept.total, h)) in
      (
        out,
        run,
        record {
          depth = found.depth;
          inv = found.inv;
          seen = λ e k. found.seen e (kept.seen e k);
          still = λ v k. found.still v (kept.still v k);
        },
      )
