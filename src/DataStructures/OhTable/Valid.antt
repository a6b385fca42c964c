-- ===== src/DataStructures/OhTable/Valid.antt =====
-- The bookkeeping of a table: one marked entry for each position of the stash and each query.
use gigadoram_rs.Base.{
  some-inj, ℕ, suc, ◌+◌, ◌<◌, ◌≤◌, ◌≡◌, refl, sym, ap, subst, ◌∙◌, arith, some, Bool, true, false,
  not, ltb, ltb→lt, length, get_elem?, length-set, count_true, count_true-set, ensure, >>=-eq-some,
  ensure-eq-some, if◌then◌else◌,
}
use gigadoram_rs.Primitives.Permutation.{LocalPermutation, evaluate_at}
use gigadoram_rs.Primitives.Value.{Record}
use gigadoram_rs.DataStructures.Cht.{lookup}
use gigadoram_rs.DataStructures.OhTable.Params.{total_size}
use gigadoram_rs.DataStructures.OhTable.Table.{OhTable, query, mark}

pub record IsTable {V Key : Type 0} (t : OhTable V Key) : Type 0 where
  pub marks : length t.touched ≡ total_size t.params
  pub marked : count_true t.touched ≡ t.params.stash_size + t.query_count
  pub xs_order : length t.xs_receiver_order ≡ total_size t.params
  pub ys_order : length t.ys_receiver_order ≡ total_size t.params
  pub xs_stash : length t.stash_xs ≡ t.params.stash_size
  pub ys_stash : length t.stash_ys ≡ t.params.stash_size
  pub budget : t.query_count ≤ t.params.num_dummies
  pub room : t.params.stash_size ≤ t.params.num_elements

-- What a query that succeeds did: the lookup's position under the receivers' shuffle was not touched,
-- and is marked.
pub record Queried {V Key : Type 0} (t t' : OhTable V Key) (q_clear : ℕ) (found : Bool)
    : Type 0 where
  pub budget : t.query_count < t.params.num_dummies
  pub dummy : ℕ
  pub paid : get_elem? t.dummy_indices t.query_count ≡ some dummy
  pub shuffle : LocalPermutation
  pub shuffled : t.receiver_shuffle ≡ some shuffle
  pub index : ℕ
  pub perm : LocalPermutation
  pub evaluated :
      evaluate_at shuffle (lookup t.params.log_single_col_len t.cht_2shares q_clear dummy).0
      ≡ some (index, perm)
  pub found_lem : found ≡ (lookup t.params.log_single_col_len t.cht_2shares q_clear dummy).1
  pub new_mark : get_elem? t.touched index ≡ some false
  pub marked : t' ≡ mark t index perm

module _ {V Key : Type 0} where
  pub query-Queried :
      (t t' : OhTable V Key) (q : ℕ) (use_dummy : Bool) (random : ℕ) (y : Record V) (found : Bool)
      → query t q use_dummy random ≡ some (t', (y, found))
      → (queried : Queried t t' (if use_dummy then random else q) found) × (get_elem?
            t.ys_receiver_order queried.index
          ≡ some y)
  unfolding query
  query-Queried t t' q use_dummy random y found h =
      let (_, some_left, h1) = >>=-eq-some (ensure (ltb t.query_count t.params.num_dummies)) _ h in
      let (dummy, paid, h2) = >>=-eq-some (get_elem? t.dummy_indices t.query_count) _ h1 in
      let (shuffle, shuffled, h3) = >>=-eq-some t.receiver_shuffle _ h2 in
      let ((index, perm), evaluated, h4) = >>=-eq-some (evaluate_at shuffle _) _ h3 in
      let (before, at, h5) = >>=-eq-some (get_elem? t.touched index) _ h4 in
      let (_, untouched, h6) = >>=-eq-some (ensure (not before)) _ h5 in
      let (record_at, value, h7) = >>=-eq-some (get_elem? t.ys_receiver_order index) _ h6 in
      let pair = some-inj h7 in
      (
        record {
          budget = ltb→lt t.query_count t.params.num_dummies (ensure-eq-some _ some_left);
          dummy = dummy;
          paid = paid;
          shuffle = shuffle;
          shuffled = shuffled;
          index = index;
          perm = perm;
          evaluated = evaluated;
          found_lem = ap (λ out. out.1.1) (sym pair);
          new_mark = was_clear index before untouched at;
          marked = ap (λ out. out.0) (sym pair);
        },
        value ∙ ap (λ out. some out.1.0) pair,
      )
    where
      was_clear :
          (index : ℕ) (b : Bool) {u : Unit {0}}
          → ensure (not b) ≡ some u
          → get_elem? t.touched index ≡ some b
          → get_elem? t.touched index ≡ some false
      was_clear index false e at = at
      was_clear index true e at = cc

  -- A query that succeeds keeps the bookkeeping.
  pub query-IsTable :
      (t t' : OhTable V Key) (q : ℕ) (use_dummy : Bool) (random : ℕ) (y : Record V) (found : Bool)
      → IsTable t
      → query t q use_dummy random ≡ some (t', (y, found))
      → IsTable t'
        × (t'.query_count ≡ suc t.query_count)
        × (t'.params ≡ t.params)
        × (t'.key ≡ t.key)
        × (t.query_count < t.params.num_dummies)
  unfolding mark
  query-IsTable t t' q use_dummy random y found valid h =
      let (queried, _) = query-Queried t t' q use_dummy random y found h in
      let more = count_true-set t.touched queried.index queried.new_mark in
      let after : IsTable (mark t queried.index queried.perm) = record {
        marks = length-set t.touched queried.index true ∙ valid.marks;
        marked = omega (arith, more, valid.marked);
        xs_order = valid.xs_order;
        ys_order = valid.ys_order;
        xs_stash = valid.xs_stash;
        ys_stash = valid.ys_stash;
        budget = omega (arith, queried.budget);
        room = valid.room;
      } in
      subst
        (λ (u : OhTable V Key).
          IsTable u
          × (u.query_count ≡ suc t.query_count)
          × (u.params ≡ t.params)
          × (u.key ≡ t.key)
          × (t.query_count < t.params.num_dummies))
        (sym queried.marked) (after, refl, refl, refl, queried.budget)
