-- ===== src/DataStructures/OhTable/Tables.antt =====
-- The well-formed tables as an implementation of what the hierarchy uses.
use gigadoram_rs.Base.{
  some-inj, ℕ, ◌^◌, ◌≤◌, ◌≡◌, ◌⊎◌, inl, inr, refl, ap, ◌∙◌, List, Option, none, some, Bool, true,
  false, Bool-cases, leb, leb→le, ◌>>=◌, >>=-eq-some,
}
use gigadoram_rs.Primitives.Value.{DoramValue, Record}
use gigadoram_rs.DataStructures.OhTable.Params.{OhTableParams, total_size}
use gigadoram_rs.DataStructures.OhTable.Api.{OhTableApi}
use gigadoram_rs.DataStructures.OhTable.Table.{
  OhTable, Coins, Request, new, query, query_many, extract,
}
use gigadoram_rs.DataStructures.OhTable.Valid.{IsTable, query-IsTable}
use gigadoram_rs.DataStructures.OhTable.New.{new-IsTable}
use gigadoram_rs.DataStructures.OhTable.Batch.{query_many-IsTable}
use gigadoram_rs.DataStructures.OhTable.Extract.{extract_lem, extract_untouched_lem}

-- A result with a proof about it.
abbrev attach :
    {R : Type 0} {P : R → Type 0} (o : Option R)
    → ((r : R) → o ≡ some r → P r)
    → Option ((r : R) × P r)
attach none valid = none
attach (some r) valid = some (r, valid r refl)

attach-eq-some :
    {R : Type 0} {P : R → Type 0} (o : Option R) (valid : (r : R) → o ≡ some r → P r) (r : R)
    (v : P r)
    → attach {P = P} o valid ≡ some (r, v)
    → o ≡ some r
attach-eq-some none valid r v h = cc
attach-eq-some (some u) valid r v h = ap (λ x. some x.0) (some-inj h)

abbrev pub ValidTable : Type 0 → Type 0 → Type 0
ValidTable V Key = (t : OhTable V Key) × IsTable t

abbrev pub reorder :
    {V Key Out : Type 0} → (r : OhTable V Key × Out) × IsTable r.0 → ValidTable V Key × Out
reorder ((t, out), v) = ((t, v), out)

-- The code's view of a result.
abbrev pub forget :
    {V Key Out : Type 0} → Option (ValidTable V Key × Out) → Option (OhTable V Key × Out)
forget none = none
forget (some ((t, v), out)) = some (t, out)

module _ {V Key : Type 0} where
  unfoldable pub query_table :
      ValidTable V Key → ℕ → Bool → ℕ → Option (ValidTable V Key × (Record V × Bool))
  query_table (t, v) q use_dummy random =
      attach {P = λ r. IsTable r.0} (query t q use_dummy random)
        (λ r h. (query-IsTable t r.0 q use_dummy random r.1.0 r.1.1 v h).0)
      >>= λ r. some (reorder r)

  unfoldable pub query_many_table :
      ValidTable V Key → List Request → Option (ValidTable V Key × List (Record V × Bool))
  query_many_table (t, v) requests =
      attach {P = λ r. IsTable r.0} (query_many t requests)
        (λ r h. (query_many-IsTable t r.0 requests r.1 v h).valid)
      >>= λ r. some (reorder r)

  pub query_many_table-eq-some :
      (t t' : ValidTable V Key) (requests : List Request) (answers : List (Record V × Bool))
      → query_many_table t requests ≡ some (t', answers)
      → query_many t.0 requests ≡ some (t'.0, answers)
  unfolding query_many_table
  query_many_table-eq-some (t, v) t' requests answers h =
      let (r, made, done) =
        >>=-eq-some (attach {P = λ r. IsTable r.0} (query_many t requests) _) _ h in
      attach-eq-some {P = λ r. IsTable r.0} (query_many t requests) _ r.0 r.1 made
      ∙ ap (λ x. some (x.0.0, x.1)) (some-inj done)

  -- Tables whose positions do not fit in 32 bits are left out.
  unfoldable pub new_table :
      ⦃d : DoramValue V⦄
      → (Key → ℕ → ℕ)
      → OhTableParams
      → List ℕ
      → List (Record V)
      → Key × Coins
      → Option (ValidTable V Key)
  new_table ⦃d⦄ prf p xs ys coins = elim (Bool-cases (leb (total_size p) (2 ^ 32))) [
    | inl fits ↦ attach {P = IsTable} (new prf p xs ys coins.0 coins.1) (λ t h.
        (new-IsTable prf p xs ys coins.0 coins.1 t (leb→le (total_size p) (2 ^ 32) fits) h).0)
    | inr large ↦ none
  ]

  pub new_table-eq-some :
      ⦃d : DoramValue V⦄ (prf : Key → ℕ → ℕ) (p : OhTableParams) (xs : List ℕ)
      (ys : List (Record V)) (coins : Key × Coins) (t : ValidTable V Key)
      → new_table prf p xs ys coins ≡ some t
      → (new prf p xs ys coins.0 coins.1 ≡ some t.0) × (total_size p ≤ 2 ^ 32)
  unfolding new_table
  new_table-eq-some ⦃d⦄ prf p xs ys coins t h = go (Bool-cases (leb (total_size p) (2 ^ 32))) h
    where
      go :
          (c : (leb (total_size p) (2 ^ 32) ≡ true) ⊎ (leb (total_size p) (2 ^ 32) ≡ false))
          → elim c [
            | inl fits ↦ attach {P = IsTable} (new prf p xs ys coins.0 coins.1) (λ t h.
                (new-IsTable prf p xs ys coins.0 coins.1 t
                  (leb→le (total_size p) (2 ^ 32) fits)
                  h).0)
            | inr large ↦ none
          ]
            ≡ some t
          → (new prf p xs ys coins.0 coins.1 ≡ some t.0) × (total_size p ≤ 2 ^ 32)
      go (inl fits) k = (
        attach-eq-some {P = IsTable} (new prf p xs ys coins.0 coins.1) _ t.0 t.1 k,
        leb→le (total_size p) (2 ^ 32) fits,
      )
      go (inr large) k = cc

  pub query_table-eq-some :
      (t t' : ValidTable V Key) (q : ℕ) (use_dummy : Bool) (random : ℕ) (out : Record V × Bool)
      → query_table t q use_dummy random ≡ some (t', out)
      → query t.0 q use_dummy random ≡ some (t'.0, out)
  unfolding query_table
  query_table-eq-some (t, v) t' q use_dummy random out h =
      let (r, made, done) =
        >>=-eq-some (attach {P = λ r. IsTable r.0} (query t q use_dummy random) _) _ h in
      attach-eq-some {P = λ r. IsTable r.0} (query t q use_dummy random) _ r.0 r.1 made
      ∙ ap (λ x. some (x.0.0, x.1)) (some-inj done)

  -- The interface of the hierarchy, filled by the code's tables.
  abbrev pub oh_tables : ⦃d : DoramValue V⦄ → (Key → ℕ → ℕ) → OhTableApi V
  oh_tables ⦃d⦄ prf = record {
    Table = ValidTable V Key;
    Coins = Key × Coins;
    Key = Key;
    prf = prf;
    packed_key = λ t. t.0.key;
    params = λ t. t.0.params;
    query_count = λ t. t.0.query_count;
    stash_xs = λ t. t.0.stash_xs;
    stash_ys = λ t. t.0.stash_ys;
    new = new_table prf;
    query = query_table;
    query_many = query_many_table;
    extract = λ t. extract t.0;
    extract_untouched = λ t. let (xs, ys, _, _, _) = extract_untouched_lem t.0 t.1 in (xs, ys);
    new_lem = λ p xs ys coins t h.
        let (made, small) = new_table-eq-some prf p xs ys coins t h in
        let (_, params, _, none_yet) = new-IsTable prf p xs ys coins.0 coins.1 t.0 small made in
        (
          params,
          none_yet,
          t.1.xs_stash ∙ ap (λ r. r.stash_size) params,
          t.1.ys_stash ∙ ap (λ r. r.stash_size) params,
        );
    query_lem = λ t t' q use_dummy random out h.
        let (_, count, params, key, budget) =
          query-IsTable t.0 t'.0 q use_dummy random out.0 out.1 t.1
            (query_table-eq-some t t' q use_dummy random out h) in
        (budget, count, params, key);
    query_many_lem = λ t t' requests answers h.
        let kept =
          query_many-IsTable t.0 t'.0 requests answers t.1
            (query_many_table-eq-some t t' requests answers h) in
        (kept.budget, kept.count, kept.same_params, kept.same_key, kept.answered);
    extract_lem = λ t h. extract_lem t.0 t.1 h;
  }

  pub forget-query_table :
      (t : ValidTable V Key) (q : ℕ) (use_dummy : Bool) (random : ℕ)
      → forget (query_table t q use_dummy random) ≡ query t.0 q use_dummy random
  unfolding query_table
  forget-query_table (t, v) q use_dummy random = go (query t q use_dummy random) _
    where
      go :
          (o : Option (OhTable V Key × (Record V × Bool)))
          (valid : (r : OhTable V Key × (Record V × Bool)) → o ≡ some r → IsTable r.0)
          → forget (attach {P = λ r. IsTable r.0} o valid >>= λ r. some (reorder r)) ≡ o
      go none valid = refl
      go (some (u, out)) valid = refl
