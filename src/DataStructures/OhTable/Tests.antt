-- ===== src/DataStructures/OhTable/Tests.antt =====
-- A table of two entries and one dummy, with a stash of one.
use gigadoram_rs.Base.{
  some-inj, none-some, ◌⊎◌, ℕ, zero, suc, ◌+◌, ◌-◌, ◌*◌, ◌^◌, ◌<◌, ◌≡◌, refl, arith, List, [], ◌∷◌,
  Option, none, some, Bool, true, false, length, get_elem?,
}
use gigadoram_rs.Primitives.Value.{Record, from_value, ring_value, zero_record}
use gigadoram_rs.DataStructures.OhTable.Lookups.{TagsApart, Labels}
use gigadoram_rs.DataStructures.OhTable.Contents.{query-new}
use gigadoram_rs.Primitives.Utils.{low_u32, set_low_u32}
use gigadoram_rs.Primitives.Permutation.{
  LocalPermutation, sample_from_rng, shuffle, inverse_shuffle, evaluate_at,
}
use gigadoram_rs.Primitives.ArrayShuffle.{forward, backward}
use gigadoram_rs.DataStructures.Cht.{h0, h1, build}
use gigadoram_rs.DataStructures.OhTable.Params.{OhTableParams, validate}
use gigadoram_rs.DataStructures.OhTable.Table.{
  Request, query_many, OhTable, compact, Draws, Coins, unbuilt, new, query, extract,
}
use gigadoram_rs.DataStructures.OhTable.Valid.{IsTable, query-IsTable}
use gigadoram_rs.DataStructures.OhTable.New.{new-IsTable}
use gigadoram_rs.DataStructures.OhTable.Many.{query_all, query_many-query_all}
use gigadoram_rs.DataStructures.OhTable.Extract.{extract_lem}
use gigadoram_rs.DataStructures.OhTable.Once.{Once, query_all-Once}
use gigadoram_rs.DataStructures.OhTable.Repeated.{query-repeated}

abbrev small_params : OhTableParams
small_params = record {
  num_elements = 2;
  num_dummies = 1;
  stash_size = 1;
  log_single_col_len = 1;
  log_address_space_size = 4;
}

-- Every draw keeps the position.
abbrev identity_draws : Draws
identity_draws = record { draw = λ i. i; bound = λ i. omega arith }

abbrev small_coins : Coins
small_coins = record {
  builder_shuffler = λ id. identity_draws;
  builder_local_perm = identity_draws;
  receiver_shuffler = λ id. identity_draws;
}

abbrev small_prf : ℕ → ℕ → ℕ
small_prf key x = (x + key) * 2 ^ 96 + x * 2 ^ 64

abbrev two_xs : List ℕ
two_xs = 5 ∷ 8 ∷ []

abbrev two_ys : List (Record ℕ)
two_ys = from_value 50 ∷ from_value 80 ∷ []

abbrev small_run : Option (OhTable ℕ ℕ)
unfolding new
small_run = new small_prf small_params two_xs two_ys 7 small_coins

abbrev small_table : OhTable ℕ ℕ
unfolding small_run
small_table = elim small_run [ some t ↦ t | none ↦ unbuilt small_prf small_params 7 ]

small_run_test : small_run ≡ some small_table
unfolding small_run small_table validate forward shuffle sample_from_rng backward inverse_shuffle
    compact build h0 h1 low_u32 set_low_u32 evaluate_at
small_run_test = refl

-- The query of the address that is not in the stash.
abbrev small_query : Option (OhTable ℕ ℕ × (Record ℕ × Bool))
unfolding query
small_query = query small_table (small_prf 7 8) false 0

abbrev queried_table : OhTable ℕ ℕ
unfolding small_query
queried_table = elim small_query [ some r ↦ r.0 | none ↦ small_table ]

small_query_test : small_query ≡ some (queried_table, (from_value 80, true))
unfolding small_query queried_table small_table small_run validate forward shuffle sample_from_rng
    backward inverse_shuffle compact build h0 h1 low_u32 set_low_u32 evaluate_at
small_query_test = refl

small_valid :
    IsTable small_table
    × (small_table.params ≡ small_params)
    × (small_table.key ≡ 7)
    × (small_table.query_count ≡ 0)
unfolding small_run
small_valid =
    new-IsTable small_prf small_params two_xs two_ys 7 small_coins small_table (omega arith)
      small_run_test

queried_valid : IsTable queried_table
unfolding small_query
queried_valid =
    (query-IsTable small_table queried_table (small_prf 7 8) false 0 (from_value 80) true
      small_valid.0 small_query_test).0

used_up : queried_table.query_count ≡ queried_table.params.num_dummies
unfolding queried_table small_query small_table small_run validate forward shuffle sample_from_rng
    backward inverse_shuffle compact build h0 h1 low_u32 set_low_u32 evaluate_at
used_up = refl

extract_lem_example :
    (xs : List ℕ) × (ys : List (Record ℕ)) × (extract queried_table ≡ some (xs, ys))
    × (length xs ≡ queried_table.params.num_elements - queried_table.params.stash_size)
    × (length ys ≡ queried_table.params.num_elements - queried_table.params.stash_size)
extract_lem_example = extract_lem queried_table queried_valid used_up

abbrev small_perm : LocalPermutation
unfolding small_table
small_perm = elim small_table.receiver_shuffle [
  | some p ↦ p
  | none ↦ record { n = 0; fy = []; pi = none }
]

small_table_built : small_table.receiver_shuffle ≡ some small_perm
unfolding small_table small_run validate forward shuffle sample_from_rng backward inverse_shuffle
    compact build h0 h1 low_u32 set_low_u32 evaluate_at small_perm
small_table_built = refl

abbrev two_requests : List Request
two_requests =
    record { q = 8; use_dummy = true; random = 3 }
    ∷ record { q = small_prf 7 8; use_dummy = false; random = 0 }
    ∷ []

query_many-query_all_example :
    query_many small_table two_requests ≡ query_all small_table two_requests
query_many-query_all_example =
    query_many-query_all small_table small_perm two_requests small_table_built small_valid.0.budget

small_TagsApart : TagsApart small_prf 7
small_TagsApart = record {
  apart = λ x x' lt lt' ne same. ne (omega (arith, lt, lt', same));
  real = λ x lt same. absurd (omega (arith, lt, same));
}

two_Labels : Labels two_xs
two_Labels = record { small = small; once = once }
  where
    small : (e x : ℕ) → get_elem? two_xs e ≡ some x → x < 2 ^ 32
    small zero x h = omega (arith, some-inj h)
    small (suc zero) x h = omega (arith, some-inj h)
    small (suc (suc e)) x h = absurd (none-some h)

    once : (e e' x : ℕ) → get_elem? two_xs e ≡ some x → get_elem? two_xs e' ≡ some x → e ≡ e'
    once zero zero x h h' = refl
    once zero (suc zero) x h h' = absurd (omega (arith, some-inj h, some-inj h'))
    once zero (suc (suc e')) x h h' = absurd (none-some h')
    once (suc zero) zero x h h' = absurd (omega (arith, some-inj h, some-inj h'))
    once (suc zero) (suc zero) x h h' = refl
    once (suc zero) (suc (suc e')) x h h' = absurd (none-some h')
    once (suc (suc e)) e' x h h' = absurd (none-some h)

query-new_example :
    ((t' : OhTable ℕ ℕ) × (query small_table (small_prf 7 8) false 0
        ≡ some (t', (from_value 80, true))))
    ⊎ (((t' : OhTable ℕ ℕ) × (query small_table (small_prf 7 8) false 0
            ≡ some (t', (zero_record, false))))
        × ((k : ℕ) × (get_elem? small_table.stash_xs k ≡ some 8)
            × (get_elem? small_table.stash_ys k ≡ some (from_value 80))))
unfolding small_run
query-new_example =
    query-new small_prf small_params two_xs two_ys 7 small_coins small_table (omega arith)
      small_TagsApart two_Labels small_run_test 1 8 (from_value 80) 0 refl refl (omega arith)

-- The second query for the address 8.
query-repeated_example : query queried_table (small_prf 7 8) false 5 ≡ none
unfolding small_run small_query
query-repeated_example =
    query-repeated small_prf small_params two_xs two_ys 7 small_coins small_table (omega arith)
      small_TagsApart two_Labels small_run_test 8 queried_table (from_value 80) 0 5 (omega arith)
      small_query_test

abbrev one_request : List Request
one_request = record { q = small_prf 7 8; use_dummy = false; random = 0 } ∷ []

one_answered : query_all small_table one_request ≡ some (queried_table, (from_value 80, true) ∷ [])
unfolding query_all small_query queried_table small_table small_run validate forward shuffle
    sample_from_rng backward inverse_shuffle compact build h0 h1 low_u32 set_low_u32 evaluate_at
one_answered = refl

query_all-Once_example : Once small_table queried_table one_request ((from_value 80, true) ∷ [])
query_all-Once_example =
    query_all-Once one_request small_table queried_table ((from_value 80, true) ∷ [])
      small_valid.0.budget one_answered
