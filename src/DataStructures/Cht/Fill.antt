-- ===== src/DataStructures/Cht/Fill.antt =====
-- Placing all blocks: the code gets through when the stash has the right size.
use gigadoram_rs.Base.{
  ℕ, zero, suc, ◌+◌, ◌<◌, ◌≤◌, ◌≡◌, refl, subst, ◌∙◌, arith, ◌⊎◌, inl, inr, List, [], ◌∷◌, none,
  some, get_elem?, length, set, length-set, lt→ltb,
}
use gigadoram_rs.Primitives.Utils.{low_u32}
use gigadoram_rs.DataStructures.Cht.{
  StashState, none_state, root, unvisited, stashed, vertex, update, num_marked, Placement,
  put_in_stash, place_on, place_all,
}
use gigadoram_rs.DataStructures.Cht.Place.{Result, in_stash, put-Result, at-Result}

pub num_marked-bound :
    (state : ℕ → StashState) (edge count : ℕ) → num_marked state edge count ≤ count
unfolding num_marked
num_marked-bound state edge zero = omega arith
num_marked-bound state edge (suc count) =
    by_state (state edge) (num_marked-bound state (suc edge) count)
  where
    by_state :
        (st : StashState) {n : ℕ} → n ≤ count → elim st [ stashed ↦ suc n | _ ↦ n ] ≤ suc count
    by_state none_state h = omega arith
    by_state root h = omega arith
    by_state unvisited h = omega arith
    by_state stashed h = omega arith
    by_state (vertex v) h = omega arith

zero_or_suc : (n : ℕ) → (n ≡ 0) ⊎ ((m : ℕ) × (n ≡ suc m))
zero_or_suc zero = inl refl
zero_or_suc (suc n) = inr (n, refl)

module _ (state : ℕ → StashState) where
  module _ (edge x : ℕ) (xs : List ℕ) (p : Placement) where
    module _ (room : p.num_stashed < length p.stash_indices) where
      put_step :
          (deficit : ℕ) → put_in_stash x deficit p ≡ some (in_stash state edge x xs p p deficit)
      unfolding put_in_stash
      put_step deficit = rw (lt→ltb p.num_stashed (length p.stash_indices) room) refl

      stashed_step :
          state edge ≡ stashed
          → place_all state edge (x ∷ xs) p
            ≡ place_all state (suc edge) xs (in_stash state edge x xs p p p.stash_deficit)
      unfolding place_all place_on
      stashed_step at = rw (at, put_step p.stash_deficit) refl

      deficit_step :
          (v deficit : ℕ)
          → state edge ≡ vertex v
          → p.stash_deficit ≡ suc deficit
          → place_all state edge (x ∷ xs) p
            ≡ place_all state (suc edge) xs (in_stash state edge x xs p p deficit)
      unfolding place_all place_on
      deficit_step v deficit at some_left = rw (at, some_left, put_step deficit) refl

    table_step :
        (v : ℕ)
        → state edge ≡ vertex v
        → p.stash_deficit ≡ 0
        → place_all state edge (x ∷ xs) p
          ≡ place_all state (suc edge) xs (record p { table = update p.table v x })
    unfolding place_all place_on
    table_step v at none_left = rw (at, none_left) refl

    num_marked-stashed :
        state edge ≡ stashed
        → (count : ℕ) → num_marked state edge (suc count) ≡ suc (num_marked state (suc edge) count)
    unfolding num_marked
    num_marked-stashed at count = rw (num_marked, at) refl

    num_marked-vertex :
        (v : ℕ)
        → state edge ≡ vertex v
        → (count : ℕ) → num_marked state edge (suc count) ≡ num_marked state (suc edge) count
    unfolding num_marked
    num_marked-vertex v at count = rw (num_marked, at) refl

  abbrev pub Regular : ℕ → List ℕ → Type 0
  Regular edge xs =
      (i x : ℕ)
      → get_elem? xs i ≡ some x
      → (state (edge + i) ≡ stashed) ⊎ ((v : ℕ) × (state (edge + i) ≡ vertex v))

  pub place_all-Result :
      ((e e' v : ℕ) → state e ≡ vertex v → state e' ≡ vertex v → e ≡ e')
      → (edge : ℕ) (xs : List ℕ) (p : Placement) → Regular edge xs
      → p.num_stashed + p.stash_deficit + num_marked state edge (length xs) ≡ length p.stash_indices
      → p.stash_deficit + num_marked state edge (length xs) ≤ length xs
      → (q : Placement) × (place_all state edge xs p ≡ some q) × Result state edge xs p q
  unfolding place_all num_marked
  place_all-Result alone edge [] p regular fits enough = (
    p,
    refl,
    record {
      deficit = omega arith;
      full = omega (arith, fits, enough);
      size = refl;
      grows = omega arith;
      table_kept = λ v h. refl;
      stash_kept = λ k h. refl;
      found = λ i x h. absurd (none_some h);
      origin = λ w. inl refl;
      slot = λ k. k;
      slots = λ k le lt. absurd (omega (arith, le, lt));
      slots_inj = λ k k' le lt le' lt' h. h;
      slot_vertex = λ k w le lt h. refl;
    },
  )
    where
      none_some : {a : ℕ} → none ≡ some a → ⊥
      none_some h = cc
  place_all-Result alone edge (x ∷ xs) p regular fits enough = elim (regular zero x refl) [
    | inl at ↦
        let marked = num_marked-stashed edge x xs p (here_state stashed at) (length xs) in
        let room : p.num_stashed < length p.stash_indices = omega (arith, marked, fits) in
        let (q, run, rest) =
          place_all-Result alone (suc edge) xs (in_stash state edge x xs p p p.stash_deficit)
            later_regular (omega (arith, marked, fits, stash_length))
            (omega (arith, marked, enough)) in
        (
          q,
          stashed_step edge x xs p room (here_state stashed at) ∙ run,
          put-Result state edge x xs p q alone p.stash_deficit room rest,
        )
    | inr (v, at) ↦
        let at_v = here_state (vertex v) at in
        let marked = num_marked-vertex edge x xs p v at_v (length xs) in
        elim (zero_or_suc p.stash_deficit) [
          | inl none_left ↦
              let (q, run, rest) =
                place_all-Result alone (suc edge) xs (record p { table = update p.table v x })
                  later_regular (omega (arith, marked, fits))
                  (omega
                    (arith, marked, none_left, num_marked-bound state (suc edge) (length xs))) in
              (
                q,
                table_step edge x xs p v at_v none_left ∙ run,
                at-Result state edge x xs p q v at_v (λ e h. alone e edge v h at_v) rest,
              )
          | inr (deficit, some_left) ↦
              let room : p.num_stashed < length p.stash_indices = omega (arith, fits, some_left) in
              let (q, run, rest) =
                place_all-Result alone (suc edge) xs (in_stash state edge x xs p p deficit)
                  later_regular (omega (arith, marked, some_left, fits, stash_length))
                  (omega (arith, marked, some_left, enough)) in
              (
                q,
                deficit_step edge x xs p room v deficit at_v some_left ∙ run,
                put-Result state edge x xs p q alone deficit room rest,
              )
        ]
  ]
    where
      here_state : (st : StashState) → state (edge + 0) ≡ st → state edge ≡ st
      here_state st h = subst (λ (n : ℕ). state n ≡ st) {x = edge + 0} (omega arith) h

      later_regular : Regular (suc edge) xs
      later_regular i y h =
          subst (λ (n : ℕ). (state n ≡ stashed) ⊎ ((v : ℕ) × (state n ≡ vertex v)))
            {x = edge + suc i} (omega arith) (regular (suc i) y h)

      stash_length : length (set p.stash_indices p.num_stashed (low_u32 x)) ≡ length p.stash_indices
      stash_length = length-set p.stash_indices p.num_stashed (low_u32 x)
