-- ===== src/Doram/GigaDoram/Batch/Levels.antt =====
-- A batch uses up a dummy of every live table for each of its operations.
use gigadoram_rs.Base.{
  some-inj, none-some, ℕ, suc, ◌+◌, ◌*◌, ◌<◌, ◌≡◌, refl, ap, ap₂, sym, subst, ◌∙◌, arith, Bool,
  List, [], ◌∷◌, Option, none, some, length, zip_with, length-zip_with, min, >>=-eq-some,
}
use gigadoram_rs.Primitives.Value.{DoramValue, Record}
use gigadoram_rs.DataStructures.OhTable.Api.{OhTableApi}
use gigadoram_rs.Doram.Config.{GigaDoramConfig, amp_factor}
use gigadoram_rs.Doram.GigaDoram.State.{Level}
use gigadoram_rs.Doram.GigaDoram.Target.{live_keys}
use gigadoram_rs.Doram.GigaDoram.Invariant.{period, TableIsValid, LevelsValid}
use gigadoram_rs.Doram.GigaDoram.Access.{Accumulated}
use gigadoram_rs.Doram.GigaDoram.Batch.{next_tags, requests, accumulate, query_levels_many}

length-next_tags :
    (qs : List (List ℕ)) (level_qs : List ℕ) (later : List (List ℕ))
    → next_tags qs ≡ some (level_qs, later)
    → (length level_qs ≡ length qs) × (length later ≡ length qs)
unfolding next_tags
length-next_tags [] level_qs later h =
    let pair = some-inj h in (ap (λ r. length r.0) (sym pair), ap (λ r. length r.1) (sym pair))
length-next_tags ([] ∷ rest) level_qs later h = absurd (none-some h)
length-next_tags ((q ∷ qs) ∷ rest) level_qs later h =
    let ((heads, tails), e, h1) = >>=-eq-some (next_tags rest) _ h in
    let (a, b) = length-next_tags rest heads tails e in
    let pair = some-inj h1 in
    (ap (λ r. length r.0) (sym pair) ∙ ap suc a, ap (λ r. length r.1) (sym pair) ∙ ap suc b)

module _ {V : Type 0} ⦃d : DoramValue V⦄ (api : OhTableApi V) where
  length-requests :
      (level query : ℕ) (qs : List ℕ) (accs : List (Accumulated api)) (random : ℕ → ℕ → ℕ)
      → length (requests api level query qs accs random) ≡ min (length qs) (length accs)
  length-requests level query [] accs random = omega arith
  length-requests level query (q ∷ qs) [] random = omega arith
  length-requests level query (q ∷ qs) (acc ∷ accs) random =
      omega (arith, length-requests level (suc query) qs accs random)

  module _ (c : GigaDoramConfig) (n : ℕ) (random : ℕ → ℕ → ℕ) where
    -- The levels that a batch of `n` operations leaves.
    pub record QueriedMany (level accesses : ℕ) (ls ls' : List (Level api.Table))
        (last : List (Accumulated api)) : Type 0 where
      pub valid : LevelsValid api c level (accesses + n) ls'
      pub same_keys : live_keys api ls' ≡ live_keys api ls
      pub same_length : length ls' ≡ length ls
      pub answered : length last ≡ n

    BatchKept : ℕ → ℕ → List (Level api.Table) → Type 0
    BatchKept level accesses ls =
        (qs : List (List ℕ)) (accs last : List (Accumulated api)) (ls' : List (Level api.Table))
        → length qs ≡ n
        → length accs ≡ n
        → query_levels_many api level ls qs random accs ≡ some (ls', last)
        → QueriedMany level accesses ls ls' last

    batch_level_kept :
        (level accesses digit : ℕ) (table : Option api.Table) (ls : List (Level api.Table))
        → TableIsValid api c level accesses digit table
        → (suc level < c.num_levels → digit < amp_factor c)
        → BatchKept (suc level) (accesses + digit * period c level) ls
        → BatchKept level accesses (record { digit = digit; table = table } ∷ ls)
    unfolding BatchKept query_levels_many
    batch_level_kept level accesses digit none ls empty fits rest qs accs last ls' lq la h =
        let ((ls1, last1), e, h') =
          >>=-eq-some (query_levels_many api (suc level) ls qs random accs) _ h in
        let pair = some-inj h' in
        let q = rest qs accs last1 ls1 lq la e in
        subst
          (λ (r : List (Level api.Table) × List (Accumulated api)).
            QueriedMany level accesses (record { digit = digit; table = none } ∷ ls) r.0 r.1)
          pair
          (record {
            valid = (
              empty,
              fits,
              subst (λ (m : ℕ). LevelsValid api c (suc level) m ls1) (omega arith) q.valid,
            );
            same_keys = q.same_keys;
            same_length = ap suc q.same_length;
            answered = q.answered;
          })
    batch_level_kept level accesses digit (some t) ls serves fits rest qs accs last ls' lq la h =
        let ((level_qs, later), e, h1) = >>=-eq-some (next_tags qs) _ h in
        let (l1, l2) = length-next_tags qs level_qs later e in
        let asked = requests api level 0 level_qs accs random in
        let ((t', results), e', h2) = >>=-eq-some {A = api.Table × List (Record V × Bool)} _ _ h1 in
        let accs' = zip_with (accumulate api) accs results in
        let ((ls1, last1), e'', h3) =
          >>=-eq-some (query_levels_many api (suc level) ls later random accs') _ h2 in
        let (spare, more, same_params, same_key, answered) =
          api.query_many_lem t t' asked results e' in
        let size = length-requests level 0 level_qs accs random in
        let q =
          rest later accs' last1 ls1 (l2 ∙ lq)
            (omega
              (arith, length-zip_with (accumulate api) accs results, answered, size, l1, lq, la))
            e'' in
        subst
          (λ (r : List (Level api.Table) × List (Accumulated api)).
            QueriedMany level accesses (record { digit = digit; table = some t } ∷ ls) r.0 r.1)
          (some-inj h3)
          (record {
            valid = (
              record {
                digit_positive = serves.digit_positive;
                dummies = ap (λ p. p.num_dummies) same_params ∙ serves.dummies;
                elements = ap (λ p. p.num_elements) same_params ∙ serves.elements;
                stash = ap (λ p. p.stash_size) same_params ∙ serves.stash;
                used = omega (arith, more, serves.used, size, l1, lq, la);
              },
              fits,
              subst (λ (m : ℕ). LevelsValid api c (suc level) m ls1) (omega arith) q.valid,
            );
            same_keys = ap₂ (λ k ks. k ∷ ks) same_key q.same_keys;
            same_length = ap suc q.same_length;
            answered = q.answered;
          })

    pub query_levels_many_lem :
        (level accesses : ℕ) (ls : List (Level api.Table))
        → LevelsValid api c level accesses ls
        → (qs : List (List ℕ)) (accs last : List (Accumulated api)) (ls' : List (Level api.Table))
        → length qs ≡ n
        → length accs ≡ n
        → query_levels_many api level ls qs random accs ≡ some (ls', last)
        → QueriedMany level accesses ls ls' last
    unfolding query_levels_many BatchKept
    query_levels_many_lem level accesses [] valid qs accs last ls' lq la h =
        subst
          (λ (r : List (Level api.Table) × List (Accumulated api)).
            QueriedMany level accesses [] r.0 r.1)
          (some-inj h) (record { valid = tt; same_keys = refl; same_length = refl; answered = la })
    query_levels_many_lem level accesses (l ∷ ls) (valid, fits, rest) qs accs last ls' lq la h =
        batch_level_kept level accesses l.digit l.table ls valid fits
          (λ qs accs last ls' lq la h.
            query_levels_many_lem (suc level) (accesses + l.digit * period c level) ls rest qs accs
              last ls' lq la h)
          qs accs last ls' lq la h
