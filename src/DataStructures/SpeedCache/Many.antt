-- ===== src/DataStructures/SpeedCache/Many.antt =====
-- `query_many` against `query`.
use gigadoram_rs.Base.{
  ℕ, ◌≡◌, List, [], ◌∷◌, map, none, some, Bool, ◌==◌, take, ◌>>=◌, inl, inr, Bool-cases,
  Option-cases,
}
use gigadoram_rs.Primitives.Rep3.{differ}
use gigadoram_rs.Primitives.Value.{DoramValue, Record, xor_record}
use gigadoram_rs.DataStructures.SpeedCache.{
  SpeedCache, Row, reduce, query, query_many, circuit_rows, rows_for, answer_rows, all_rows,
}

module _ {V : Type 0} ⦃d : DoramValue V⦄ where
  -- The answer of `query` as a batch.
  abbrev pub batch : SpeedCache V × (Record V × Bool) → SpeedCache V × List (Record V × Bool)
  batch r = (r.0, r.1 ∷ [])

  -- A batch of one address does to the cache what a query for the address does, returns the same
  -- answer, and fails if it fails.
  pub query_many-query :
      (c : SpeedCache V) (a : ℕ)
      → query_many c (a ∷ []) none ≡ (query c a none >>= λ r. some (batch r))
  unfolding query_many query all_rows answer_rows rows_for circuit_rows
  query_many-query c a =
      let rows = circuit_rows a (take c.num_stored c.addrs) (take c.num_stored c.entries) in
      elim (Bool-cases (c.num_stored == 0)) [
        | inl empty ↦ rw empty
        | inr used ↦
            elim (Option-cases (reduce xor_record (map (λ (r : Row V). r.y_if_found) rows))) [
              | inl e ↦ rw (used, e)
              | inr (y, e) ↦
                  elim (Option-cases (reduce differ (map (λ (r : Row V). r.found) rows))) [
                    | inl e' ↦ rw (used, e, e')
                    | inr (f, e') ↦ rw (used, e, e')
                  ]
            ]
      ]
