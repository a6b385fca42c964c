-- ===== src/DataStructures/Cht/Invariant.antt =====
-- What the search keeps: the arrays describe a forest of the vertices reached since the component
-- was started, and every edge that has a vertex ends there.
use gigadoram_rs.Base.{
  ℕ, zero, suc, ◌+◌, ◌<◌, ◌≡◌, ◌≢◌, refl, ◌⊎◌, inl, inr, List, ◌∷◌, Bool, true, false, ◌==◌, ==_iff,
  Bool-cases, if◌then◌else◌,
}
use gigadoram_rs.DataStructures.Cht.{
  DirectedEdge, StashState, none_state, root, unvisited, stashed, vertex, is_none_state, update,
  Search, all_reached,
}

-- An occurrence in a list.
pub data Has {A : Type 0} (a : A) : List A → Type 0 where
  here : {xs : List A} → Has a (a ∷ xs)
  there : {x : A} {xs : List A} → Has a xs → Has a (x ∷ xs)

pub data UpdateCase {A : Type 0} (f : ℕ → A) (i : ℕ) (v : A) (j : ℕ) : Type 0 where
  hit : j ≡ i → update f i v j ≡ v → UpdateCase f i v j
  miss : j ≢ i → update f i v j ≡ f j → UpdateCase f i v j

pub update-cases : {A : Type 0} (f : ℕ → A) (i : ℕ) (v : A) (j : ℕ) → UpdateCase f i v j
update-cases f i v j = elim (Bool-cases (j == i)) [
  | inl same ↦ hit ((==_iff j i).0 same) (rw same)
  | inr other ↦ miss (λ e. clash ((==_iff j i).1 e) other) (rw other)
]
  where
    clash : {b : Bool} → b ≡ true → b ≡ false → ⊥
    clash h k = cc

pub update_hit : {A : Type 0} (f : ℕ → A) (i : ℕ) (v : A) → update f i v i ≡ v
update_hit f i v = rw ((==_iff i i).1 refl)

pub update_miss : {A : Type 0} (f : ℕ → A) (i j : ℕ) (v : A) → j ≢ i → update f i v j ≡ f j
update_miss f i j v ne = elim (update-cases f i v j) [
  | hit same u ↦ absurd (ne same)
  | miss other u ↦ u
]

abbrev pub is_unvisited : StashState → Bool
is_unvisited unvisited = true
is_unvisited _ = false

-- The number of unreached vertices below `n`.
abbrev pub count_none : (ℕ → StashState) → ℕ → ℕ
count_none pv zero = 0
count_none pv (suc n) = (if is_none_state (pv n) then 1 else 0) + count_none pv n

abbrev pub Reached : (ℕ → StashState) → ℕ → Type 0
Reached pv v = is_none_state (pv v) ≡ false

abbrev pub Fresh : (ℕ → StashState) → ℕ → Type 0
Fresh old v = is_none_state (old v) ≡ true

-- An edge between two vertices, in both directions, among `n` vertices.
pub record Graph : Type 1 where
  pub size : ℕ
  pub Joins : ℕ → ℕ → ℕ → Type 0
  pub joins_sym : {e v w : ℕ} → Joins e v w → Joins e w v
  pub joins_ne : {e v w : ℕ} → Joins e v w → v ≢ w
  pub joins_lt : {e v w : ℕ} → Joins e v w → w < size

-- Every edge of the list leaves the vertex; every edge of the list has been looked at.
abbrev pub Leaving : Graph → ℕ → List DirectedEdge → Type 0
Leaving g curr ds = (d : DirectedEdge) → Has d ds → g.Joins d.edge curr d.vertex

abbrev pub AllSeen : List DirectedEdge → Search → Type 0
AllSeen ds s = (d : DirectedEdge) → Has d ds → is_unvisited (s.state d.edge) ≡ false

module _ (g : Graph) (old : ℕ → StashState) where
  pub data Parent (s : Search) (depth : ℕ → ℕ) (v : ℕ) : Type 0 where
    is_root : s.parent_vertex v ≡ root → s.parent_edge v ≡ root → Parent s depth v
    is_child :
        (u e : ℕ)
        → s.parent_vertex v ≡ vertex u
        → s.parent_edge v ≡ vertex e
        → Fresh old u
        → Reached s.parent_vertex u
        → depth u < depth v
        → g.Joins e v u
        → Parent s depth v

  -- `stack` holds the vertices whose edges are still to be looked at.
  pub record Inv (depth : ℕ → ℕ) (stack : List ℕ) (s : Search) : Type 0 where
    pub kept : (v : ℕ) → Reached old v → s.parent_vertex v ≡ old v
    pub ends :
        (e w : ℕ) → s.state e ≡ vertex w → Reached s.parent_vertex w × ((u : ℕ) × g.Joins e u w)
    pub tree :
        (e w : ℕ)
        → s.state e ≡ vertex w
        → Fresh old w
        → s.extra_edge ≢ vertex e
        → s.parent_edge w ≡ vertex e
    pub inj_old :
        (e e' w : ℕ) → s.state e ≡ vertex w → s.state e' ≡ vertex w → Reached old w → e ≡ e'
    pub extra :
        (s.extra_edge ≡ none_state)
        ⊎ ((m : ℕ) × (w : ℕ) × (s.extra_edge ≡ vertex m) × (s.state m ≡ vertex w) × Fresh old w)
    pub parents : (v : ℕ) → Fresh old v → Reached s.parent_vertex v → Parent s depth v
    pub reached : all_reached s.parent_edge s.component ≡ true
    pub regular :
        (e : ℕ)
        → (s.state e ≡ unvisited) ⊎ (s.state e ≡ stashed) ⊎ ((w : ℕ) × (s.state e ≡ vertex w))
    pub looked_at :
        (v e w : ℕ)
        → Reached s.parent_vertex v
        → g.Joins e v w
        → (is_unvisited (s.state e) ≡ false) ⊎ Has v stack
    pub pending : (v : ℕ) → Has v stack → Fresh old v × Reached s.parent_vertex v
    pub time :
        (v : ℕ) → Reached s.parent_vertex v → depth v + count_none s.parent_vertex g.size < g.size

  -- A vertex that was reached before the component keeps its edges out of the component.
  pub Inv-Fresh :
      {depth : ℕ → ℕ} {stack : List ℕ} {s : Search}
      → Inv depth stack s
      → (e v w : ℕ) → Reached s.parent_vertex v
      → g.Joins e v w
      → s.state e ≡ unvisited
      → Fresh old v
  Inv-Fresh {s = s} inv e v w r j u = elim (inv.looked_at v e w r j) [
    | inl seen ↦ clash (s.state e) seen u
    | inr h ↦ (inv.pending v h).0
  ]
    where
      clash : (st : StashState) → is_unvisited st ≡ false → st ≡ unvisited → Fresh old v
      clash st a b = cc
