-- ===== src/DataStructures/OhTable/Batch.antt =====
-- A batch of queries keeps the bookkeeping.
use gigadoram_rs.Base.{
  some-inj, ℕ, suc, ◌+◌, ◌≤◌, ◌≡◌, refl, sym, ap, subst, ◌∙◌, arith, List, [], ◌∷◌, some, Bool, leb,
  length, ensure, >>=-eq-some,
}
use gigadoram_rs.Primitives.Value.{Record}
use gigadoram_rs.DataStructures.OhTable.Table.{OhTable, Request, lookup_many, query, query_many}
use gigadoram_rs.DataStructures.OhTable.Valid.{IsTable, query-IsTable}
use gigadoram_rs.DataStructures.OhTable.Many.{query_all, query_many-query_all}

module _ {V Key : Type 0} where
  -- What a batch of `n` requests that succeeds does to a table.
  pub record Answered (t t' : OhTable V Key) (n : ℕ) (answers : List (Record V × Bool))
      : Type 0 where
    pub valid : IsTable t'
    pub budget : t.query_count + n ≤ t.params.num_dummies
    pub count : t'.query_count ≡ t.query_count + n
    pub same_params : t'.params ≡ t.params
    pub same_key : t'.key ≡ t.key
    pub answered : length answers ≡ n

  query_all-IsTable :
      (requests : List Request) (t t' : OhTable V Key) (answers : List (Record V × Bool))
      → IsTable t
      → query_all t requests ≡ some (t', answers)
      → Answered t t' (length requests) answers
  unfolding query_all
  query_all-IsTable [] t t' answers valid h =
      subst (λ (r : OhTable V Key × List (Record V × Bool)). Answered t r.0 0 r.1) (some-inj h)
        (record {
          valid = valid;
          budget = omega (arith, valid.budget);
          count = omega arith;
          same_params = refl;
          same_key = refl;
          answered = refl;
        })
  query_all-IsTable (r ∷ rs) t t' answers valid h =
      let ((next, answer), e, h1) = >>=-eq-some (query t r.q r.use_dummy r.random) _ h in
      let ((last, others), e', h2) = >>=-eq-some (query_all next rs) _ h1 in
      let (valid', count, params, key, budget) =
        query-IsTable t next r.q r.use_dummy r.random answer.0 answer.1 valid e in
      let rest = query_all-IsTable rs next last others valid' e' in
      let dummies = ap (λ p. p.num_dummies) params in
      subst (λ (r : OhTable V Key × List (Record V × Bool)). Answered t r.0 (suc (length rs)) r.1)
        (some-inj h2)
        (record {
          valid = rest.valid;
          budget = omega (arith, rest.budget, count, dummies);
          count = omega (arith, rest.count, count);
          same_params = rest.same_params ∙ params;
          same_key = rest.same_key ∙ key;
          answered = omega (arith, rest.answered);
        })

  pub query_many-IsTable :
      (t t' : OhTable V Key) (requests : List Request) (answers : List (Record V × Bool))
      → IsTable t
      → query_many t requests ≡ some (t', answers)
      → Answered t t' (length requests) answers
  unfolding query_many
  query_many-IsTable t t' requests answers valid h =
      let (_, _, h1) =
        >>=-eq-some (ensure (leb (t.query_count + length requests) t.params.num_dummies)) _ h in
      let (_, _, h2) =
        >>=-eq-some
          (lookup_many t.params.log_single_col_len t.cht_2shares t.dummy_indices t.query_count
            requests)
          _ h1 in
      let (perm, built, _) = >>=-eq-some t.receiver_shuffle _ h2 in
      query_all-IsTable requests t t' answers valid
        (sym (query_many-query_all t perm requests built valid.budget) ∙ h)
