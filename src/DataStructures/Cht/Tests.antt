-- ===== src/DataStructures/Cht/Tests.antt =====
-- Three blocks with the same two locations: one at each, and one in the stash.
use gigadoram_rs.Base.{
  zero, suc, ◌/◌, ◌≢◌, ◌⊎◌, true, false, get_elem?, some-inj, none-some, ℕ, ◌+◌, ◌^◌, ◌≡◌, refl,
  arith, List, [], ◌∷◌, map, Option, none, some,
}
use gigadoram_rs.Primitives.Utils.{low_u32}
use gigadoram_rs.DataStructures.Cht.{
  StashState, unvisited, stashed, vertex, h0, h1, orient, build, num_marked, lookup,
}
use gigadoram_rs.DataStructures.Cht.Orient.{Placed, orient-Placed}
use gigadoram_rs.DataStructures.Cht.Lookup.{DistinctTags, lookup-of_build, lookup-absent}
use gigadoram_rs.DataStructures.Cht.Build.{Finds, build-Finds}

abbrev three_blocks : List ℕ
three_blocks = 5 ∷ 6 ∷ 7 ∷ []

abbrev three_states : ℕ → StashState
unfolding orient
three_states = elim (orient 1 three_blocks) [ some state ↦ state | none ↦ λ e. unvisited ]

-- The two used places of the table, and the stash.
abbrev map_stash : Option ((ℕ → ℕ) × List ℕ) → Option (List ℕ)
map_stash (some (table, stash)) = some (table 0 ∷ table 2 ∷ stash)
map_stash none = none

h0_test : h0 (2 ^ 64 + 2 ^ 96) 1 ≡ 1
unfolding h0
h0_test = refl

h1_test : h1 (2 ^ 64 + 2 ^ 96) 1 ≡ 3
unfolding h1
h1_test = refl

states_test : map three_states (0 ∷ 1 ∷ 2 ∷ []) ≡ vertex 0 ∷ vertex 2 ∷ stashed ∷ []
unfolding three_states h1 h0
states_test = refl

build_test : map_stash (build 1 1 three_blocks) ≡ some (5 ∷ 6 ∷ 7 ∷ [])
unfolding build h1 h0 low_u32
build_test = refl

orient-Placed_example :
    (state : ℕ → StashState) × (orient 1 three_blocks ≡ some state) × Placed 1 three_blocks state
orient-Placed_example = orient-Placed 1 three_blocks

three_states_run : orient 1 three_blocks ≡ some three_states
unfolding orient three_states h1 h0
three_states_run = refl

one_marked : num_marked three_states 0 3 ≡ 1
unfolding three_states num_marked h1 h0
one_marked = refl

build-Finds_example :
    (table : ℕ → ℕ) × (stash : List ℕ) × (build 1 1 three_blocks ≡ some (table, stash))
    × Finds 1 three_blocks 1 table stash
build-Finds_example =
    build-Finds 1 1 three_blocks three_states three_states_run (omega (arith, one_marked))
      (omega arith)

abbrev tagged_blocks : List ℕ
tagged_blocks = 4294967296 ∷ 8589934593 ∷ []

abbrev tagged_states : ℕ → StashState
unfolding orient
tagged_states = elim (orient 1 tagged_blocks) [ some state ↦ state | none ↦ λ e. unvisited ]

tagged_states_run : orient 1 tagged_blocks ≡ some tagged_states
unfolding orient tagged_states h1 h0
tagged_states_run = refl

none_marked : num_marked tagged_states 0 2 ≡ 0
unfolding tagged_states num_marked h1 h0
none_marked = refl

tagged_build :
    (table : ℕ → ℕ) × (stash : List ℕ) × (build 0 1 tagged_blocks ≡ some (table, stash))
    × Finds 1 tagged_blocks 0 table stash
tagged_build =
    build-Finds 0 1 tagged_blocks tagged_states tagged_states_run (omega (arith, none_marked))
      (omega arith)

tagged_blocks-DistinctTags : DistinctTags tagged_blocks
tagged_blocks-DistinctTags zero zero x x' h h' same = refl
tagged_blocks-DistinctTags (suc zero) (suc zero) x x' h h' same = refl
tagged_blocks-DistinctTags zero (suc zero) x x' h h' same =
    absurd (omega (arith, some-inj h, some-inj h', same))
tagged_blocks-DistinctTags (suc zero) zero x x' h h' same =
    absurd (omega (arith, some-inj h, some-inj h', same))
tagged_blocks-DistinctTags (suc (suc e)) e' x x' h h' same = absurd (none-some h)
tagged_blocks-DistinctTags e (suc (suc e')) x x' h h' same = absurd (none-some h')

lookup-of_build_example :
    (lookup 1 tagged_build.0 8589934593 9 ≡ (low_u32 8589934593, true))
    ⊎ ((k : ℕ) × (get_elem? tagged_build.1 k ≡ some (low_u32 8589934593)))
lookup-of_build_example =
    lookup-of_build 1 tagged_blocks 0 tagged_build.0 tagged_build.1 tagged_build.3
      tagged_blocks-DistinctTags 8589934593 (λ h. absurd (omega (arith, h))) 1 8589934593 refl refl
      9

absent_tag : (e x : ℕ) → get_elem? tagged_blocks e ≡ some x → 12884901888 / 2 ^ 32 ≢ x / 2 ^ 32
absent_tag zero x h same = absurd (omega (arith, some-inj h, same))
absent_tag (suc zero) x h same = absurd (omega (arith, some-inj h, same))
absent_tag (suc (suc e)) x h same = absurd (none-some h)

lookup-absent_example : lookup 1 tagged_build.0 12884901888 9 ≡ (9, false)
lookup-absent_example =
    lookup-absent 1 tagged_blocks 0 tagged_build.0 tagged_build.1 tagged_build.3
      tagged_blocks-DistinctTags 12884901888 (λ h. absurd (omega (arith, h))) absent_tag 9
