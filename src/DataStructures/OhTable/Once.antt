-- ===== src/DataStructures/OhTable/Once.antt =====
-- The entries that a sequence of queries returns are different ones, and each is returned once.
use gigadoram_rs.Base.{
  some-inj, none-some, ℕ, zero, suc, ◌+◌, ◌≤◌, ◌<◌, ◌≡◌, ◌≢◌, refl, sym, ap, subst, ◌∙◌, arith,
  List, [], ◌∷◌, Option, some, Bool, true, false, length, get_elem?, set, get_elem?-set_self,
  get_elem?-set_ne, lt_of_get_elem?, >>=-eq-some,
}
use gigadoram_rs.Primitives.Permutation.{LocalPermutation}
use gigadoram_rs.Primitives.Value.{Record}
use gigadoram_rs.DataStructures.OhTable.Table.{OhTable, Request, mark, query}
use gigadoram_rs.DataStructures.OhTable.Valid.{query-Queried}
use gigadoram_rs.DataStructures.OhTable.Distinct.{Distinct}
use gigadoram_rs.DataStructures.OhTable.Many.{query_all}

-- What a sequence of queries has returned: the records at different positions, of which none was
-- marked before. It has marked these and no other, and counted itself.
pub record Once {V Key : Type 0} (t t' : OhTable V Key) (requests : List Request)
    (answers : List (Record V × Bool)) : Type 0 where
  pub indices : List ℕ
  pub apart : Distinct indices
  pub fresh : (k i : ℕ) → get_elem? indices k ≡ some i → get_elem? t.touched i ≡ some false
  pub taken : (k i : ℕ) → get_elem? indices k ≡ some i → get_elem? t'.touched i ≡ some true
  pub kept :
      (i : ℕ)
      → ((k : ℕ) → get_elem? indices k ≢ some i)
      → get_elem? t'.touched i ≡ get_elem? t.touched i
  pub records :
      (k i : ℕ)
      → get_elem? indices k ≡ some i
      → (answer : Record V × Bool) × (get_elem? answers k ≡ some answer)
        × (get_elem? t.ys_receiver_order i ≡ some answer.0)
  pub asked : length indices ≡ length requests
  pub answered : length answers ≡ length requests
  pub count : t'.query_count ≡ t.query_count + length requests
  pub budget : t'.query_count ≤ t'.params.num_dummies
  pub same_params : t'.params ≡ t.params

module _ {V Key : Type 0} where
  -- A query before the others.
  Once-cons :
      (t last : OhTable V Key) (index : ℕ) (perm : LocalPermutation) (r : Request)
      (rs : List Request) (y : Record V) (found : Bool) (others : List (Record V × Bool))
      → get_elem? t.touched index ≡ some false
      → get_elem? t.ys_receiver_order index ≡ some y
      → Once (mark t index perm) last rs others
      → Once t last (r ∷ rs) ((y, found) ∷ others)
  unfolding mark
  Once-cons t last index perm r rs y found others clear value once = record {
    indices = index ∷ once.indices;
    apart = apart;
    fresh = fresh;
    taken = taken;
    kept = λ i none_at.
        once.kept i (λ k at. none_at (suc k) at)
        ∙ get_elem?-set_ne t.touched index i true (λ same. none_at 0 (ap some same));
    records = records;
    asked = ap suc once.asked;
    answered = ap suc once.answered;
    count = omega (arith, once.count);
    budget = once.budget;
    same_params = once.same_params;
  }
    where
      now : get_elem? (set t.touched index true) index ≡ some true
      now = get_elem?-set_self t.touched index true (lt_of_get_elem? t.touched index clear)

      clash : {o : Option Bool} → o ≡ some true → o ≡ some false → ⊥
      clash h h' = cc

      other : (k i : ℕ) → get_elem? once.indices k ≡ some i → index ≢ i
      other k i at same = clash now (
          subst (λ (n : ℕ). get_elem? (set t.touched index true) n ≡ some false) (sym same)
            (once.fresh k i at))

      apart : Distinct (index ∷ once.indices)
      apart zero zero x at at' = refl
      apart zero (suc k') x at at' = absurd (other k' x at' (some-inj at))
      apart (suc k) zero x at at' = absurd (other k x at (some-inj at'))
      apart (suc k) (suc k') x at at' = ap suc (once.apart k k' x at at')

      fresh :
          (k i : ℕ)
          → get_elem? (index ∷ once.indices) k ≡ some i
          → get_elem? t.touched i ≡ some false
      fresh zero i at = subst (λ (n : ℕ). get_elem? t.touched n ≡ some false) (some-inj at) clear
      fresh (suc k) i at =
          sym (get_elem?-set_ne t.touched index i true (other k i at)) ∙ once.fresh k i at

      taken :
          (k i : ℕ)
          → get_elem? (index ∷ once.indices) k ≡ some i
          → get_elem? last.touched i ≡ some true
      taken zero i at =
          subst (λ (n : ℕ). get_elem? last.touched n ≡ some true) (some-inj at)
            (once.kept index (λ k at'. other k index at' refl) ∙ now)
      taken (suc k) i at = once.taken k i at

      records :
          (k i : ℕ)
          → get_elem? (index ∷ once.indices) k ≡ some i
          → (answer : Record V × Bool) × (get_elem? ((y, found) ∷ others) k ≡ some answer)
            × (get_elem? t.ys_receiver_order i ≡ some answer.0)
      records zero i at = (
        (y, found),
        refl,
        subst (λ (n : ℕ). get_elem? t.ys_receiver_order n ≡ some y) (some-inj at) value,
      )
      records (suc k) i at = once.records k i at

  after :
      (t : OhTable V Key) (index : ℕ) (perm : LocalPermutation)
      → t.query_count < t.params.num_dummies
      → (mark t index perm).query_count ≤ (mark t index perm).params.num_dummies
  unfolding mark
  after t index perm h = omega (arith, h)

  -- Queries one after the other that all succeed return the records at different positions, as many
  -- as there are requests, of which none was marked before. They mark these positions and no other,
  -- raise the query count by their number, and use up no more dummies than there are, if no more
  -- had been used before. The parameters stay as they were.
  pub query_all-Once :
      (requests : List Request) (t t' : OhTable V Key) (answers : List (Record V × Bool))
      → t.query_count ≤ t.params.num_dummies
      → query_all t requests ≡ some (t', answers)
      → Once t t' requests answers
  unfolding query_all
  query_all-Once [] t t' answers budget h =
      subst (λ (r : OhTable V Key × List (Record V × Bool)). Once t r.0 [] r.1) (some-inj h)
        (record {
          indices = [];
          apart = λ k k' y at at'. absurd (none-some at);
          fresh = λ k i at. absurd (none-some at);
          taken = λ k i at. absurd (none-some at);
          kept = λ i none_at. refl;
          records = λ k i at. absurd (none-some at);
          asked = refl;
          answered = refl;
          count = omega arith;
          budget = budget;
          same_params = refl;
        })
  query_all-Once (r ∷ rs) t t' answers budget h =
      let ((next, (y, found)), e, h1) =
        >>=-eq-some {A = OhTable V Key × (Record V × Bool)} (query t r.q r.use_dummy r.random) _
          h in
      let ((last, others), e', h2) =
        >>=-eq-some {A = OhTable V Key × List (Record V × Bool)} (query_all next rs) _ h1 in
      let (queried, value) = query-Queried t next r.q r.use_dummy r.random y found e in
      let marked : OhTable V Key = mark t queried.index queried.perm in
      let rest : Once marked last rs others =
        query_all-Once rs marked last others (after t queried.index queried.perm queried.budget)
          (subst (λ u. query_all u rs ≡ some (last, others)) queried.marked e') in
      subst (λ (r' : OhTable V Key × List (Record V × Bool)). Once t r'.0 (r ∷ rs) r'.1)
        (some-inj h2)
        (Once-cons t last queried.index queried.perm r rs y found others queried.new_mark value
          rest)
