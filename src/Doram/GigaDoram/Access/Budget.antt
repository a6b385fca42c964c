-- ===== src/Doram/GigaDoram/Access/Budget.antt =====
-- An access uses up one dummy of every live table and keeps the hierarchy well-formed.
use gigadoram_rs.Base.{
  ℕ, suc, ◌+◌, ◌*◌, ◌<◌, ◌≡◌, refl, ap, ap₂, subst, ◌∙◌, arith, Bool, List, [], ◌∷◌, Option, none,
  some, length, >>=-eq-some,
}
use gigadoram_rs.Primitives.Value.{DoramValue, Record}
use gigadoram_rs.DataStructures.OhTable.Api.{OhTableApi}
use gigadoram_rs.Doram.Config.{GigaDoramConfig, amp_factor}
use gigadoram_rs.Doram.GigaDoram.State.{Level}
use gigadoram_rs.Doram.GigaDoram.Target.{live_keys}
use gigadoram_rs.Doram.GigaDoram.Invariant.{period, TableIsValid, LevelsValid}
use gigadoram_rs.Doram.GigaDoram.Access.{Accumulated, query_levels, tags}

module _ {V : Type 0} ⦃d : DoramValue V⦄ (api : OhTableApi V) (c : GigaDoramConfig) (x : ℕ)
    (random : ℕ → ℕ) where
  -- The levels that an access leaves.
  pub record Queried (level accesses : ℕ) (ls ls' : List (Level api.Table)) : Type 0 where
    pub valid : LevelsValid api c level (suc accesses) ls'
    pub same_keys : live_keys api ls' ≡ live_keys api ls
    pub same_length : length ls' ≡ length ls

  QueriesKept : ℕ → ℕ → List (Level api.Table) → Type 0
  QueriesKept level accesses ls =
      (acc last : Accumulated api) (ls' : List (Level api.Table))
      → query_levels api level ls (tags api (live_keys api ls) x) random acc ≡ some (ls', last)
      → Queried level accesses ls ls'

  query_level_kept :
      (level accesses digit : ℕ) (table : Option api.Table) (ls : List (Level api.Table))
      → TableIsValid api c level accesses digit table
      → (suc level < c.num_levels → digit < amp_factor c)
      → QueriesKept (suc level) (accesses + digit * period c level) ls
      → QueriesKept level accesses (record { digit = digit; table = table } ∷ ls)
  unfolding QueriesKept query_levels
  query_level_kept level accesses digit none ls empty fits rest acc last ls' h =
      let qs = tags api (live_keys api ls) x in
      let ((ls1, last1), e, h') = >>=-eq-some (query_levels api (suc level) ls qs random acc) _ h in
      let same : (record { digit = digit; table = none } ∷ ls1) ≡ ls' = cc in
      let q = rest acc last1 ls1 e in
      subst (λ r. Queried level accesses (record { digit = digit; table = none } ∷ ls) r) same
        (record {
          valid = (
            empty,
            fits,
            subst (λ (n : ℕ). LevelsValid api c (suc level) n ls1) (omega arith) q.valid,
          );
          same_keys = q.same_keys;
          same_length = ap suc q.same_length;
        })
  query_level_kept level accesses digit (some t) ls serves fits rest acc last ls' h =
      let ((t', out), e, h') = >>=-eq-some {A = api.Table × (Record V × Bool)} _ _ h in
      let ((ls1, last1), e', h'') =
        >>=-eq-some {A = List (Level api.Table) × Accumulated api} _ _ h' in
      let same : (record { digit = digit; table = some t' } ∷ ls1) ≡ ls' = cc in
      let (spare, one_more, same_params, same_key) = api.query_lem _ _ _ _ _ _ e in
      let q = rest _ last1 ls1 e' in
      subst (λ r. Queried level accesses (record { digit = digit; table = some t } ∷ ls) r) same
        (record {
          valid = (
            record {
              digit_positive = serves.digit_positive;
              dummies = ap (λ p. p.num_dummies) same_params ∙ serves.dummies;
              elements = ap (λ p. p.num_elements) same_params ∙ serves.elements;
              stash = ap (λ p. p.stash_size) same_params ∙ serves.stash;
              used = one_more ∙ ap suc serves.used;
            },
            fits,
            subst (λ (n : ℕ). LevelsValid api c (suc level) n ls1) (omega arith) q.valid,
          );
          same_keys = ap₂ (λ k ks. k ∷ ks) same_key q.same_keys;
          same_length = ap suc q.same_length;
        })

  pub query_levels_lem :
      (level accesses : ℕ) (ls : List (Level api.Table))
      → LevelsValid api c level accesses ls
      → (acc last : Accumulated api) (ls' : List (Level api.Table))
      → query_levels api level ls (tags api (live_keys api ls) x) random acc ≡ some (ls', last)
      → Queried level accesses ls ls'
  unfolding query_levels QueriesKept
  query_levels_lem level accesses [] valid acc last ls' h =
      let same : [] ≡ ls' = cc in
      subst (λ r. Queried level accesses [] r) same
        (record { valid = tt; same_keys = refl; same_length = refl })
  query_levels_lem level accesses (l ∷ ls) (valid, fits, rest) acc last ls' h =
      query_level_kept level accesses l.digit l.table ls valid fits
        (λ acc last ls' h.
          query_levels_lem (suc level) (accesses + l.digit * period c level) ls rest acc last ls' h)
        acc last ls' h
