-- ===== src/DataStructures/OhTable/Many.antt =====
-- `query_many` against single queries.
use gigadoram_rs.Base.{
  ℕ, suc, ◌+◌, ◌<◌, ◌≤◌, ◌≡◌, inl, inr, refl, sym, ap, ◌∙◌, arith, List, [], ◌∷◌, map, Option, none,
  some, Bool, true, false, ltb, leb, lt→ltb, if◌then◌else◌, length, get_elem?, set, ◌>>=◌,
  Option-cases, Bool-cases, leb→le, ap₂,
}
use gigadoram_rs.Primitives.Permutation.{LocalPermutation, evaluate_at}
use gigadoram_rs.Primitives.Value.{Record}
use gigadoram_rs.DataStructures.Cht.{lookup}
use gigadoram_rs.DataStructures.OhTable.Valid.{query-Queried}
use gigadoram_rs.DataStructures.OhTable.Table.{
  OhTable, Request, receiver_indices, lookup_many, mark_many, mark, query, query_many,
}

both_fail : {R : Type 0} {a b : Option R} → a ≡ none → b ≡ none → a ≡ b
both_fail h k = h ∙ sym k

-- A failure of the first request is one of the batch.
first_fails :
    {S R : Type 0} (o : Option S) (step : S → S) (rest : S → Option R)
    → ((s : S) → rest (step s) ≡ none)
    → ((o >>= λ s. some (step s)) >>= λ s. rest s) ≡ none
first_fails none step rest fails = refl
first_fails (some s) step rest fails = fails s

module _ {V Key : Type 0} where
  abbrev pub cons :
      Record V × Bool
      → OhTable V Key × List (Record V × Bool)
      → OhTable V Key × List (Record V × Bool)
  cons answer r = (r.0, answer ∷ r.1)

  -- The requests one after the other.
  unfoldable pub query_all :
      OhTable V Key → List Request → Option (OhTable V Key × List (Record V × Bool))
  unfolding query
  query_all t [] = some (t, [])
  query_all t (r ∷ rs) = do
    (next, answer) ← query t r.q r.use_dummy r.random
    rest ← query_all next rs
    some (cons answer rest)

  -- The count at the end.
  abbrev counted :
      ℕ → OhTable V Key × List (Record V × Bool) → OhTable V Key × List (Record V × Bool)
  counted n r = (record r.0 { query_count = n }, r.1)

  counted-cons :
      (n : ℕ) (answer : Record V × Bool) (o : Option (OhTable V Key × List (Record V × Bool)))
      → ((o >>= λ r. some (cons answer r)) >>= λ r. some (counted n r))
        ≡ ((o >>= λ r. some (counted n r)) >>= λ r. some (cons answer r))
  counted-cons n answer none = refl
  counted-cons n answer (some r) = refl

  -- The bookkeeping does not read the query count.
  mark_many-count :
      (count n m : ℕ) (indices : List ℕ) (found : List (ℕ × Bool)) (t : OhTable V Key)
      → (mark_many count indices found (record t { query_count = m }) >>= λ r. some (counted n r))
        ≡ (mark_many count indices found t >>= λ r. some (counted n r))
  unfolding mark_many
  mark_many-count count n m [] found t = refl
  mark_many-count count n m (index ∷ indices) [] t = refl
  mark_many-count count n m (index ∷ indices) ((i, f) ∷ found) t =
      elim (Option-cases (get_elem? t.touched index)) [
        | inl e ↦ rw e refl
        | inr (true, e) ↦ rw e refl
        | inr (false, e) ↦ elim (Option-cases (get_elem? t.ys_receiver_order index)) [
          | inl e' ↦ rw (e, e') refl
          | inr (y, e') ↦
              rw (e, e')
                (counted-cons n (y, f)
                    (mark_many (suc count) indices found (record (next index) { query_count = m }))
                  ∙ ap (λ o. o >>= λ r. some (cons (y, f) r))
                      (mark_many-count (suc count) n m indices found (next index))
                  ∙ sym (counted-cons n (y, f) (mark_many (suc count) indices found (next index))))
        ]
      ]
    where
      next : ℕ → OhTable V Key
      next index = record t {
        touched = set t.touched index true;
        last_query_trace = some (record {
          old_query_count = count;
          selected_receiver_index = index;
          was_touched_before = false;
        });
      }

  -- What `query_many` does once the requests fit.
  module _ (t : OhTable V Key) (count n : ℕ) where
    abbrev marked :
        List (ℕ × Bool)
        → List ℕ × LocalPermutation
        → Option (OhTable V Key × List (Record V × Bool))
    marked found ip =
        mark_many count ip.0 found (record t { receiver_shuffle = some ip.1 }) >>= λ r.
        some (counted n r)

    abbrev evaluated :
        LocalPermutation → List (ℕ × Bool) → Option (OhTable V Key × List (Record V × Bool))
    evaluated perm found = receiver_indices (map (λ f. f.0) found) perm >>= λ ip. marked found ip

    abbrev phases :
        LocalPermutation → List Request → Option (OhTable V Key × List (Record V × Bool))
    phases perm rs =
        lookup_many t.params.log_single_col_len t.cht_2shares t.dummy_indices count rs >>= λ found.
        evaluated perm found

  -- The first request of a batch, and the others after it.
  module _ (t : OhTable V Key) (perm next : LocalPermutation) (index others total : ℕ)
      (f : ℕ × Bool) (y : Record V) (at : evaluate_at perm f.0 ≡ some (index, next))
      (clear : get_elem? t.touched index ≡ some false)
      (stored : get_elem? t.ys_receiver_order index ≡ some y)
      (same : total ≡ suc t.query_count + others) where
    abbrev touched_at : LocalPermutation → OhTable V Key
    touched_at last = record t {
      receiver_shuffle = some last;
      touched = set t.touched index true;
      last_query_trace = some (record {
        old_query_count = t.query_count;
        selected_receiver_index = index;
        was_touched_before = false;
      });
    }

    first_marked :
        (rest : List (ℕ × Bool)) (o : Option (List ℕ × LocalPermutation))
        → ((o >>= λ x. some (index ∷ x.0, x.1)) >>= λ ip.
            marked t t.query_count total (f ∷ rest) ip)
          ≡ ((o >>= λ ip.
                marked (mark t index next) (suc t.query_count) (suc t.query_count + others) rest ip)
              >>= λ x. some (cons (y, f.1) x))
    unfolding mark_many mark
    first_marked rest none = refl
    first_marked rest (some (indices, last)) =
        rw (clear, stored)
          (counted-cons total (y, f.1)
              (mark_many (suc t.query_count) indices rest (touched_at last))
            ∙ ap (λ o. o >>= λ x. some (cons (y, f.1) x))
                (sym (
                    mark_many-count (suc t.query_count) total (suc t.query_count) indices rest
                      (touched_at last))
                  ∙ ap
                      (λ n.
                        mark_many (suc t.query_count) indices rest
                          (record (touched_at last) { query_count = suc t.query_count })
                        >>= λ x. some (counted n x))
                      same))

    first_request :
        (o : Option (List (ℕ × Bool)))
        → ((o >>= λ rest. some (f ∷ rest)) >>= λ found. evaluated t t.query_count total perm found)
          ≡ ((o >>= λ found.
                evaluated
                  (mark t index next)
                  (suc t.query_count)
                  (suc t.query_count + others)
                  next
                  found)
              >>= λ x. some (cons (y, f.1) x))
    unfolding receiver_indices
    first_request none = refl
    first_request (some rest) =
        rw at (first_marked rest (receiver_indices (map (λ g. g.0) rest) next))

  phases-query_all :
      (rs : List Request) (t : OhTable V Key) (perm : LocalPermutation)
      → t.receiver_shuffle ≡ some perm
      → t.query_count + length rs ≤ t.params.num_dummies
      → phases t t.query_count (t.query_count + length rs) perm rs ≡ query_all t rs
  unfolding query_all query lookup_many receiver_indices mark_many mark
  phases-query_all [] t perm built fits =
      ap₂ (λ p n. some (record t { receiver_shuffle = p; query_count = n }, [])) (sym built)
        (omega arith)
  phases-query_all (r ∷ rs) t perm built fits =
      elim (Option-cases (get_elem? t.dummy_indices t.query_count)) [
        | inl e1 ↦ rw (e1, in_budget) refl
        | inr (dummy, e1) ↦
            let f = first_lookup dummy in
            elim (Option-cases (evaluate_at perm f.0)) [
              | inl e3 ↦
                  both_fail
                    (rw e1 (
                      first_fails (others dummy) (λ rest. f ∷ rest)
                        (λ found. evaluated t t.query_count total perm found) (λ rest. rw e3 refl)))
                    (rw (in_budget, e1, built, e3) refl)
              | inr ((index, next), e3) ↦
                  let unmarked : ((rest : List (ℕ × Bool)) (x : List ℕ × LocalPermutation)
                        → marked t t.query_count total (f ∷ rest) (index ∷ x.0, x.1) ≡ none)
                      → phases t t.query_count total perm (r ∷ rs) ≡ none =
                    λ fails. rw e1 (
                      first_fails (others dummy) (λ rest. f ∷ rest)
                        (λ found. evaluated t t.query_count total perm found)
                        (λ rest. rw e3 (
                          first_fails (receiver_indices (map (λ g. g.0) rest) next)
                            (λ x. (index ∷ x.0, x.1))
                            (λ ip. marked t t.query_count total (f ∷ rest) ip) (fails rest)))) in
                  elim (Option-cases (get_elem? t.touched index)) [
                    | inl e5 ↦
                        both_fail (unmarked (λ rest x. rw e5 refl))
                          (rw (in_budget, e1, built, e3, e5) refl)
                    | inr (true, e5) ↦
                        both_fail (unmarked (λ rest x. rw e5 refl))
                          (rw (in_budget, e1, built, e3, e5) refl)
                    | inr (false, e5) ↦ elim (Option-cases (get_elem? t.ys_receiver_order index)) [
                      | inl e7 ↦
                          both_fail (unmarked (λ rest x. rw (e5, e7) refl))
                            (rw (in_budget, e1, built, e3, e5, e7) refl)
                      | inr (y, e7) ↦
                          let later =
                            phases-query_all rs (mark t index next) next refl
                              (omega (arith, fits)) in
                          rw (in_budget, e1, built, e3, e5, e7)
                            (first_request t perm next index (length rs) total f y e3 e5 e7
                                (omega arith) (others dummy)
                              ∙ ap (λ o. o >>= λ x. some (cons (y, f.1) x)) later)
                    ]
                  ]
            ]
      ]
    where
      total : ℕ
      total = t.query_count + suc (length rs)

      in_budget : ltb t.query_count t.params.num_dummies ≡ true
      in_budget = lt→ltb t.query_count t.params.num_dummies (omega (arith, fits))

      first_lookup : ℕ → ℕ × Bool
      first_lookup dummy =
          lookup t.params.log_single_col_len t.cht_2shares (if r.use_dummy then r.random else r.q)
            dummy

      others : ℕ → Option (List (ℕ × Bool))
      others dummy =
          lookup_many t.params.log_single_col_len t.cht_2shares t.dummy_indices (suc t.query_count)
            rs

  -- Too many requests fail one after the other too.
  query_all-full :
      (t : OhTable V Key) (rs : List Request)
      → t.params.num_dummies < t.query_count + length rs
      → t.query_count ≤ t.params.num_dummies
      → query_all t rs ≡ none
  unfolding query_all mark
  query_all-full t [] many budget = absurd (omega (arith, many, budget))
  query_all-full t (r ∷ rs) many budget = elim (Option-cases (query t r.q r.use_dummy r.random)) [
    | inl e ↦ rw e refl
    | inr ((next, answer), e) ↦ rw e (rw (later next answer e (λ u. query_all-full u rs)) refl)
  ]
    where
      later :
          (next : OhTable V Key) (answer : Record V × Bool)
          → query t r.q r.use_dummy r.random ≡ some (next, answer)
          → ((u : OhTable V Key)
              → u.params.num_dummies < u.query_count + length rs
              → u.query_count ≤ u.params.num_dummies
              → query_all u rs ≡ none)
          → query_all next rs ≡ none
      later next (y, found) e again =
          let (queried, _) = query-Queried t next r.q r.use_dummy r.random y found e in
          let count : next.query_count ≡ suc t.query_count =
            ap (λ (u : OhTable V Key). u.query_count) queried.marked in
          let dummies : next.params.num_dummies ≡ t.params.num_dummies =
            ap (λ (u : OhTable V Key). u.params.num_dummies) queried.marked in
          again next (omega (arith, many, count, dummies))
            (omega (arith, queried.budget, count, dummies))

  -- A batch of requests does to a table that has been built what the requests do one after the other, returns
  -- the same answers, and fails if one of them fails. No more dummies have been used than there are.
  pub query_many-query_all :
      (t : OhTable V Key) (perm : LocalPermutation) (requests : List Request)
      → t.receiver_shuffle ≡ some perm
      → t.query_count ≤ t.params.num_dummies
      → query_many t requests ≡ query_all t requests
  unfolding query_many
  query_many-query_all t perm requests built budget =
      elim (Bool-cases (leb (t.query_count + length requests) t.params.num_dummies)) [
        | inl fits ↦ rw fits (
            ap
              (λ shuffled.
                lookup_many t.params.log_single_col_len t.cht_2shares t.dummy_indices t.query_count
                  requests
                >>= λ found. shuffled >>= λ p.
                    evaluated t t.query_count (t.query_count + length requests) p found)
              built
            ∙ phases-query_all requests t perm built
                (leb→le (t.query_count + length requests) t.params.num_dummies fits))
        | inr full ↦ both_fail (rw full refl) (query_all-full t requests (not_le full) budget)
      ]
    where
      not_le :
          leb (t.query_count + length requests) t.params.num_dummies ≡ false
          → t.params.num_dummies < t.query_count + length requests
      not_le h = ground arith
