-- ===== src/DataStructures/Cht.antt =====
-- crates/data-structures/src/cht.rs on opened values: a block is a number below 2 ^ 128, and an
-- array a function of its indices, which `Graph` shows to be in range. `none` is a panic.
pub mod Invariant
pub mod Reach
pub mod Visit
pub mod Close
pub mod Loop
pub mod Stack
pub mod Turn
pub mod Finish
pub mod Components
pub mod Edges
pub mod Orient
pub mod Place
pub mod Fill
pub mod Build
pub mod Lookup
pub mod Exact
mod Tests
use gigadoram_rs.Base.{
  not, ℕ, zero, suc, ◌+◌, ◌-◌, ◌*◌, ◌/◌, ◌%◌, ◌^◌, List, [], ◌∷◌, ◌++◌, Option, none, some, Bool,
  true, false, ltb, leb, ◌==◌, if◌then◌else◌, length, replicate, set, ◌>>=◌, ◌>>◌, ensure,
}
use gigadoram_rs.Primitives.Utils.{low_u32}

pub record DirectedEdge : Type 0 where
  pub edge : ℕ
  pub vertex : ℕ

pub data StashState : Type 0 where
  none_state root unvisited stashed : StashState
  vertex : ℕ → StashState

abbrev pub unwrap_regular : StashState → Option ℕ
unwrap_regular (vertex v) = some v
unwrap_regular _ = none

abbrev pub is_none_state : StashState → Bool
is_none_state none_state = true
is_none_state _ = false

-- `array[i] = v`.
abbrev pub update {ℓ} : {A : Type ℓ} → (ℕ → A) → ℕ → A → ℕ → A
update f i v j = if j == i then v else f j

-- The two columns of the table.
unfoldable pub h0 : ℕ → ℕ → ℕ
h0 block log_single_col_len = block / 2 ^ 64 % 2 ^ log_single_col_len

unfoldable pub h1 : ℕ → ℕ → ℕ
h1 block log_single_col_len = block / 2 ^ 96 % 2 ^ log_single_col_len + 2 ^ log_single_col_len

abbrev pub num_vertices : ℕ → ℕ
num_vertices log_single_col_len = 2 * 2 ^ log_single_col_len

-- `edges[v].push(d)`.
abbrev pub push : (ℕ → List DirectedEdge) → ℕ → DirectedEdge → ℕ → List DirectedEdge
push edges v d = update edges v (edges v ++ (d ∷ []))

-- The adjacency lists, with the blocks from `edge` on added.
pub add_edges : ℕ → ℕ → List ℕ → (ℕ → List DirectedEdge) → ℕ → List DirectedEdge
add_edges l edge [] edges = edges
add_edges l edge (x ∷ xs) edges =
    let left = h0 x l in
    let right = h1 x l in
    let with_left = push edges left (record { edge = edge; vertex = right }) in
    add_edges l (suc edge) xs (push with_left right (record { edge = edge; vertex = left }))

-- The arrays of the search, its stack (the top first), and the extra edge of the component.
pub record Search : Type 0 where
  pub state : ℕ → StashState
  pub parent_vertex : ℕ → StashState
  pub parent_edge : ℕ → StashState
  pub extra_edge : StashState
  pub component : List ℕ
  pub dfs : List ℕ

-- An unvisited edge to a vertex that has been reached before.
abbrev pub close_cycle : DirectedEdge → StashState → Search → Search
close_cycle d none_state s = record s {
  extra_edge = vertex d.edge;
  state = update s.state d.edge (vertex d.vertex);
}
close_cycle d _ s = record s { state = update s.state d.edge stashed }

abbrev pub visit_unvisited : ℕ → DirectedEdge → StashState → Search → Search
visit_unvisited curr d none_state s = record s {
  parent_vertex = update s.parent_vertex d.vertex (vertex curr);
  parent_edge = update s.parent_edge d.vertex (vertex d.edge);
  state = update s.state d.edge (vertex d.vertex);
  dfs = d.vertex ∷ s.dfs;
}
visit_unvisited curr d _ s = close_cycle d s.extra_edge s

abbrev pub visit_on : ℕ → DirectedEdge → StashState → Search → Search
visit_on curr d unvisited s = visit_unvisited curr d (s.parent_vertex d.vertex) s
visit_on curr d _ s = s

-- The loop over the edges of the current vertex.
pub visit_edges : ℕ → List DirectedEdge → Search → Search
visit_edges curr [] s = s
visit_edges curr (d ∷ ds) s = visit_edges curr ds (visit_on curr d (s.state d.edge) s)

-- `while let Some(curr_vertex) = dfs.pop()`.
pub search : ℕ → (ℕ → List DirectedEdge) → List ℕ → Search → Option Search
unfolding visit_edges
search fuel edges [] s = some s
search zero edges (curr ∷ rest) s = none
search (suc fuel) edges (curr ∷ rest) s =
    let popped = record s { component = s.component ++ (curr ∷ []); dfs = rest } in
    let next = visit_edges curr (edges curr) popped in search fuel edges next.dfs next

-- The assertion on every vertex of the component.
abbrev pub all_reached : (ℕ → StashState) → List ℕ → Bool
all_reached parent_edge [] = true
all_reached parent_edge (c ∷ cs) =
    if is_none_state (parent_edge c) then false else all_reached parent_edge cs

-- `while parent_vertex[v] != Root`: the edge to `v` is turned to the parent of `v`.
pub reorient : ℕ → ℕ → StashState → Search → Option Search
reorient fuel v root s = some s
reorient zero v (vertex u) s = none
reorient (suc fuel) v (vertex u) s = do
  e ← unwrap_regular (s.parent_edge v)
  let turned = record s { state = update s.state e (vertex u) }
  reorient fuel u (s.parent_vertex u) turned
reorient fuel v _ s = none

pub finish_component : ℕ → StashState → Search → Option Search
unfolding reorient
finish_component fuel none_state s = some s
finish_component fuel extra s = do
  value ← unwrap_regular extra
  v ← unwrap_regular (s.state value)
  reorient fuel v (s.parent_vertex v) s

pub start_at : ℕ → (ℕ → List DirectedEdge) → ℕ → StashState → Search → Option Search
unfolding search finish_component
start_at fuel edges v none_state s = do
  let started = record s {
    parent_vertex = update s.parent_vertex v root;
    parent_edge = update s.parent_edge v root;
    extra_edge = none_state;
    component = [];
    dfs = v ∷ [];
  }
  searched ← search fuel edges started.dfs started
  ensure (all_reached searched.parent_edge searched.component)
  finish_component fuel searched.extra_edge searched
start_at fuel edges v _ s = some s

-- `for starting_vertex in v..v + count`.
pub start_all : ℕ → (ℕ → List DirectedEdge) → ℕ → ℕ → Search → Option Search
unfolding start_at
start_all fuel edges v zero s = some s
start_all fuel edges v (suc count) s = do
  next ← start_at fuel edges v (s.parent_vertex v) s
  start_all fuel edges (suc v) count next

abbrev pub unsearched : Search
unsearched = record {
  state = λ e. unvisited;
  parent_vertex = λ v. none_state;
  parent_edge = λ v. none_state;
  extra_edge = none_state;
  component = [];
  dfs = [];
}

-- The states of the edges after the loop over all starting vertices.
pub orient : ℕ → List ℕ → Option (ℕ → StashState)
unfolding add_edges start_all
orient l input_array = do
  let edges = add_edges l 0 input_array (λ v. [])
  s ← start_all (num_vertices l) edges 0 (num_vertices l) unsearched
  some s.state

-- The number of marked edges among `count` from `edge` on.
pub num_marked : (ℕ → StashState) → ℕ → ℕ → ℕ
num_marked state edge zero = 0
num_marked state edge (suc count) =
    let rest = num_marked state (suc edge) count in
    elim (state edge) [ stashed ↦ suc rest | _ ↦ rest ]

pub record Placement : Type 0 where
  pub table : ℕ → ℕ
  pub stash_indices : List ℕ
  pub num_stashed : ℕ
  pub stash_deficit : ℕ

-- `stash_indices[num_stashed] = low_u32(input)`.
pub put_in_stash : ℕ → ℕ → Placement → Option Placement
put_in_stash input stash_deficit p = do
  ensure (ltb p.num_stashed (length p.stash_indices))
  some (record p {
    stash_indices = set p.stash_indices p.num_stashed (low_u32 input);
    num_stashed = suc p.num_stashed;
    stash_deficit = stash_deficit;
  })

pub place_on : StashState → ℕ → ℕ → Placement → Option Placement
unfolding put_in_stash
place_on unvisited input deficit p = none
place_on stashed input deficit p = put_in_stash input deficit p
place_on regular input (suc deficit) p = put_in_stash input deficit p
place_on regular input zero p = do
  value ← unwrap_regular regular
  some (record p { table = update p.table value input })

pub place_all : (ℕ → StashState) → ℕ → List ℕ → Placement → Option Placement
unfolding place_on
place_all state edge [] p = some p
place_all state edge (input ∷ inputs) p = do
  next ← place_on (state edge) input p.stash_deficit p
  place_all state (suc edge) inputs next

unfoldable pub build : ℕ → ℕ → List ℕ → Option ((ℕ → ℕ) × List ℕ)
unfolding orient num_marked place_all
build stash_size l input_array = do
  state ← orient l input_array
  let marked = num_marked state 0 (length input_array)
  ensure (leb marked stash_size)
  p ← place_all state 0 input_array (record {
    table = λ v. 0;
    stash_indices = replicate stash_size 0;
    num_stashed = 0;
    stash_deficit = stash_size - marked;
  })
  ensure (p.stash_deficit == 0)
  some (p.table, p.stash_indices)

-- Equality of the upper 96 bits.
abbrev pub tags_equal : ℕ → ℕ → Bool
tags_equal a b = a / 2 ^ 32 == b / 2 ^ 32

abbrev pub xor : Bool → Bool → Bool
xor true b = not b
xor false b = b

-- The lookup of a key: the index at the location whose tag is that of the key, or the dummy index.
unfoldable pub lookup : ℕ → (ℕ → ℕ) → ℕ → ℕ → ℕ × Bool
lookup l table key dummy_index =
    let b0 = table (h0 key l) in
    let b1 = table (h1 key l) in
    let b1_or_dummy = if tags_equal key b1 then low_u32 b1 else dummy_index in
    (
      if tags_equal key b0 then low_u32 b0 else b1_or_dummy,
      xor (tags_equal key b0) (tags_equal key b1),
    )
