-- ===== src/DataStructures/Cht/Orient.antt =====
-- The orientation that the search gives: every block at a location of its own, or stashed.
use gigadoram_rs.Base.{
  ℕ, zero, ◌+◌, ◌<◌, ◌≤◌, ◌≡◌, refl, sym, ap, ◌∙◌, arith, ◌⊎◌, inl, inr, List, [], none, some, true,
  false, get_elem?,
}
use gigadoram_rs.DataStructures.Cht.{
  StashState, unvisited, stashed, vertex, h0, h1, num_vertices, add_edges, Search, unsearched,
  orient,
}
use gigadoram_rs.DataStructures.Cht.Invariant.{is_unvisited, Reached}
use gigadoram_rs.DataStructures.Cht.Turn.{Oriented}
use gigadoram_rs.DataStructures.Cht.Components.{start_all-Grown}
use gigadoram_rs.DataStructures.Cht.Edges.{Located, locations, locations-Adjacency, h0-bound}

-- The blocks of the input are stashed or stand at one of their locations, which no other block has.
pub record Placed (l : ℕ) (input_array : List ℕ) (state : ℕ → StashState) : Type 0 where
  pub located :
      (e x : ℕ)
      → get_elem? input_array e ≡ some x
      → (state e ≡ stashed) ⊎ (state e ≡ vertex (h0 x l)) ⊎ (state e ≡ vertex (h1 x l))
  pub alone : (e e' v : ℕ) → state e ≡ vertex v → state e' ≡ vertex v → e ≡ e'

module _ (l : ℕ) (xs : List ℕ) where
  unsearched-Oriented : Oriented (locations l xs) unsearched
  unsearched-Oriented = record {
    ends = λ e w h. absurd (nowhere h);
    inj = λ e e' w h h'. absurd (nowhere h);
    regular = λ e. inl refl;
    looked_at = λ v e w r j. absurd (unreached r);
  }
    where
      nowhere : {w : ℕ} → unvisited ≡ vertex w → ⊥
      nowhere h = cc

      unreached : true ≡ false → ⊥
      unreached h = cc

  Oriented-Placed :
      (s : Search)
      → Oriented (locations l xs) s
      → ((w : ℕ) → w < num_vertices l → Reached s.parent_vertex w)
      → Placed l xs s.state
  unfolding locations
  Oriented-Placed s oriented all = record { located = located; alone = oriented.inj }
    where
      seen_unvisited : (st : StashState) → is_unvisited st ≡ false → st ≡ unvisited → ⊥
      seen_unvisited st h k = cc

      some-inj : {a b : ℕ} → some a ≡ some b → a ≡ b
      some-inj k = ap (λ o. elim o [ some z ↦ z | none ↦ zero ]) k

      at_end :
          (e x w u : ℕ)
          → get_elem? xs e ≡ some x
          → s.state e ≡ vertex w
          → ((y : ℕ) × (get_elem? xs e ≡ some y) × Located l y u w)
          → (s.state e ≡ vertex (h0 x l)) ⊎ (s.state e ≡ vertex (h1 x l))
      at_end e x w u at h (y, found, inl (a, b)) =
          inr (h ∙ ap vertex (b ∙ ap (λ z. h1 z l) (some-inj (sym found ∙ at))))
      at_end e x w u at h (y, found, inr (a, b)) =
          inl (h ∙ ap vertex (b ∙ ap (λ z. h0 z l) (some-inj (sym found ∙ at))))

      located :
          (e x : ℕ)
          → get_elem? xs e ≡ some x
          → (s.state e ≡ stashed) ⊎ (s.state e ≡ vertex (h0 x l)) ⊎ (s.state e ≡ vertex (h1 x l))
      located e x at = elim (oriented.regular e) [
        | inl never ↦
            let joins : (locations l xs).Joins e (h0 x l) (h1 x l) = (x, at, inl (refl, refl)) in
            absurd (
              seen_unvisited (s.state e)
                (oriented.looked_at (h0 x l) e (h1 x l) (all (h0 x l) (omega (arith, h0-bound l x)))
                  joins)
                never)
        | inr (inl h) ↦ inl h
        | inr (inr (w, h)) ↦
            inr (at_end e x w (oriented.ends e w h).1.0 at h (oriented.ends e w h).1.1)
      ]

size_lem : (l : ℕ) (xs : List ℕ) → (locations l xs).size ≤ num_vertices l
unfolding locations
size_lem l xs = omega arith

size_same : (l : ℕ) (xs : List ℕ) → 0 + num_vertices l ≤ (locations l xs).size
unfolding locations
size_same l xs = omega arith

-- On every input the search ends without a panic, and with every block stashed or at one of its
-- two locations, which no other block has.
pub orient-Placed :
    (l : ℕ) (input_array : List ℕ)
    → (state : ℕ → StashState) × (orient l input_array ≡ some state) × Placed l input_array state
unfolding orient
orient-Placed l xs =
    let (s, run, oriented, all) =
      start_all-Grown (locations l xs) (add_edges l 0 xs (λ v. [])) (locations-Adjacency l xs)
        (num_vertices l) (size_lem l xs) (num_vertices l) 0 unsearched (unsearched-Oriented l xs)
        (size_same l xs) (λ w h. absurd (omega (arith, h))) in
    (s.state, rw run refl, Oriented-Placed l xs s oriented (λ w h. all w (omega (arith, h))))
