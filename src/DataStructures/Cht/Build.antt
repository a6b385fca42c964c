-- ===== src/DataStructures/Cht/Build.antt =====
-- The whole of `build`: it succeeds when the stash has the right size, and every block is found again.
use gigadoram_rs.Base.{
  >>=-eq-some, ensure, leb, ensure-eq-some, leb→le, ℕ, ◌+◌, ◌-◌, ◌<◌, ◌≤◌, ◌≡◌, refl, sym, ap,
  subst, ◌∙◌, arith, ◌⊎◌, inl, inr, List, none, some, get_elem?, length, replicate,
  length-replicate, le→leb, ==_iff,
}
use gigadoram_rs.Primitives.Utils.{low_u32}
use gigadoram_rs.DataStructures.Cht.{
  StashState, stashed, vertex, h0, h1, num_marked, Placement, orient, build,
}
use gigadoram_rs.DataStructures.Cht.Reach.{vertex-inj}
use gigadoram_rs.DataStructures.Cht.Orient.{Placed, orient-Placed}
use gigadoram_rs.DataStructures.Cht.Place.{Result}
use gigadoram_rs.DataStructures.Cht.Fill.{Regular, place_all-Result}

-- The table and the stash give back every block: it stands at one of its two locations, or its
-- index stands in the stash. The stash is full, and different slots hold the indices of different blocks.
pub record Finds (l : ℕ) (input_array : List ℕ) (stash_size : ℕ) (table : ℕ → ℕ) (stash : List ℕ)
    : Type 0 where
  pub found :
      (e x : ℕ)
      → get_elem? input_array e ≡ some x
      → (table (h0 x l) ≡ x)
        ⊎ (table (h1 x l) ≡ x)
        ⊎ ((k : ℕ) × (get_elem? stash k ≡ some (low_u32 x)))
  pub size : length stash ≡ stash_size
  -- Where a block stands, and what stands at a vertex: a block, or zero.
  pub place : ℕ → StashState
  pub origin :
      (w : ℕ)
      → (table w ≡ 0)
        ⊎ ((e : ℕ) × (x : ℕ) × (get_elem? input_array e ≡ some x)
            × (place e ≡ vertex w)
            × (table w ≡ x))
  pub slot : ℕ → ℕ
  pub slots :
      (k : ℕ)
      → k < stash_size
      → (x : ℕ) × (get_elem? input_array (slot k) ≡ some x) × (get_elem? stash k ≡ some (low_u32 x))
  pub slots_inj : (k k' : ℕ) → k < stash_size → k' < stash_size → slot k ≡ slot k' → k ≡ k'
  -- A block in the stash is not in the table.
  pub slot_vertex : (k w : ℕ) → k < stash_size → place (slot k) ≡ vertex w → table w ≡ 0

Result-Finds :
    (l : ℕ) (xs : List ℕ) (stash_size : ℕ) (state : ℕ → StashState) (p q : Placement)
    → Placed l xs state
    → p.num_stashed ≡ 0
    → length p.stash_indices ≡ stash_size
    → ((w : ℕ) → p.table w ≡ 0)
    → Result state 0 xs p q
    → Finds l xs stash_size q.table q.stash_indices
Result-Finds l xs stash_size state p q placed start size empty result = record {
  found = λ e x h. elim (result.found e x h) [
    | inl (v, at, t) ↦
        at_location e x v (subst (λ (n : ℕ). state n ≡ vertex v) {x = 0 + e} (omega arith) at) t
          (placed.located e x h)
    | inr k ↦ inr (inr k)
  ];
  size = result.size ∙ size;
  place = state;
  origin = λ w. elim (result.origin w) [
    | inl same ↦ inl (same ∙ empty w)
    | inr (i, x, at, there, stored) ↦
        inr
          (i, x, at, subst (λ (n : ℕ). state n ≡ vertex w) {x = 0 + i} (omega arith) there, stored)
  ];
  slot = result.slot;
  slots = λ k lt.
      let (le, (x, at, stored)) = result.slots k (omega (arith, start)) (filled k lt) in
      (
        x,
        subst (λ (n : ℕ). get_elem? xs n ≡ some x) {x = result.slot k - 0} (omega arith) at,
        stored,
      );
  slots_inj = λ k k' lt lt'.
      result.slots_inj k k' (omega (arith, start)) (filled k lt) (omega (arith, start))
        (filled k' lt');
  slot_vertex =
      λ k w lt at. result.slot_vertex k w (omega (arith, start)) (filled k lt) at ∙ empty w;
}
  where
    filled : (k : ℕ) → k < stash_size → k < q.num_stashed
    filled k lt = omega (arith, lt, result.full, result.size, size)

    stashed_vertex : {v : ℕ} → stashed ≡ vertex v → ⊥
    stashed_vertex h = cc

    at_location :
        (e x v : ℕ)
        → state e ≡ vertex v
        → q.table v ≡ x
        → (state e ≡ stashed) ⊎ (state e ≡ vertex (h0 x l)) ⊎ (state e ≡ vertex (h1 x l))
        → (q.table (h0 x l) ≡ x)
          ⊎ (q.table (h1 x l) ≡ x)
          ⊎ ((k : ℕ) × (get_elem? q.stash_indices k ≡ some (low_u32 x)))
    at_location e x v at t (inl none_here) = absurd (stashed_vertex (sym none_here ∙ at))
    at_location e x v at t (inr (inl left)) = inl (ap q.table (vertex-inj (sym left ∙ at)) ∙ t)
    at_location e x v at t (inr (inr right)) =
        inr (inl (ap q.table (vertex-inj (sym right ∙ at)) ∙ t))

abbrev first_placement : ℕ → ℕ → Placement
first_placement stash_size marked = record {
  table = λ v. 0;
  stash_indices = replicate stash_size 0;
  num_stashed = 0;
  stash_deficit = stash_size - marked;
}

-- When the stash has room for the blocks that the search marks, and the input fills it, `build`
-- gives a table and a stash in which every block is found.
pub build-Finds :
    (stash_size l : ℕ) (input_array : List ℕ) (state : ℕ → StashState)
    → orient l input_array ≡ some state
    → num_marked state 0 (length input_array) ≤ stash_size
    → stash_size ≤ length input_array
    → (table : ℕ → ℕ) × (stash : List ℕ) × (build stash_size l input_array ≡ some (table, stash))
      × Finds l input_array stash_size table stash
unfolding build
build-Finds stash_size l xs state run few enough =
    let placed = orient_Placed in
    let marked = num_marked state 0 (length xs) in
    let p = first_placement stash_size marked in
    let zeros : length (first_placement stash_size marked).stash_indices ≡ stash_size =
      length-replicate stash_size 0 in
    let (q, place, result) =
      place_all-Result state placed.alone 0 xs p usable (total zeros)
        (omega (arith, few, enough)) in
    (
      q.table,
      q.stash_indices,
      rw (run, le→leb marked stash_size few, place, (==_iff q.stash_deficit 0).1 result.deficit)
          refl,
      Result-Finds l xs stash_size state p q placed refl zeros (λ w. refl) result,
    )
  where
    some-inj : {a b : ℕ → StashState} → some a ≡ some b → a ≡ b
    some-inj k = ap (λ o. elim o [ some z ↦ z | none ↦ state ]) k

    orient_Placed : Placed l xs state
    orient_Placed =
        let (found, runs, placed) = orient-Placed l xs in
        subst (Placed l xs) (some-inj (sym runs ∙ run)) placed

    total :
        length {A = ℕ} (replicate stash_size 0) ≡ stash_size
        → 0 + (stash_size - num_marked state 0 (length xs)) + num_marked state 0 (length xs)
          ≡ length {A = ℕ} (replicate stash_size 0)
    total zeros = omega (arith, few, zeros)

    usable : Regular state 0 xs
    usable i x h = elim (orient_Placed.located i x h) [
      | inl at ↦ inl (moved at)
      | inr (inl left) ↦ inr (h0 x l, moved left)
      | inr (inr right) ↦ inr (h1 x l, moved right)
    ]
      where
        moved : {st : StashState} → state i ≡ st → state (0 + i) ≡ st
        moved {st = st} at = subst (λ (n : ℕ). state n ≡ st) (omega arith) at

-- A build that succeeds finds every block.
pub Finds-of_build :
    (stash_size l : ℕ) (input_array : List ℕ) {table : ℕ → ℕ} {stash : List ℕ}
    → build stash_size l input_array ≡ some (table, stash)
    → stash_size ≤ length input_array
    → Finds l input_array stash_size table stash
unfolding build
Finds-of_build stash_size l xs {table = table} {stash = stash} h enough =
    let (state, run, rest) = >>=-eq-some (orient l xs) _ h in
    let (ok, few, placed) =
      >>=-eq-some (ensure (leb (num_marked state 0 (length xs)) stash_size)) _ rest in
    let (table', stash', made, finds) =
      build-Finds stash_size l xs state run
        (leb→le (num_marked state 0 (length xs)) stash_size (ensure-eq-some _ few)) enough in
    let same : some (table', stash') ≡ some (table, stash) = sym made ∙ h in
    subst (λ (out : (ℕ → ℕ) × List ℕ). Finds l xs stash_size out.0 out.1) (some-pair same) finds
  where
    some-pair : {a b : (ℕ → ℕ) × List ℕ} → some a ≡ some b → a ≡ b
    some-pair {a = a} k = ap (λ o. elim o [ some z ↦ z | none ↦ a ]) k
