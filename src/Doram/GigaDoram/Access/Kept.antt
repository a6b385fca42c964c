-- ===== src/Doram/GigaDoram/Access/Kept.antt =====
-- An access keeps the hierarchy well-formed.
use gigadoram_rs.Base.{
  ℕ, suc, ◌<◌, ◌≡◌, refl, sym, ap, subst, replicate, ◌∙◌, arith, Bool, List, [], ◌∷◌, Option, none,
  some, >>=-eq-some,
}
use gigadoram_rs.Primitives.Value.{DoramValue, Record}
use gigadoram_rs.DataStructures.SpeedCache
use gigadoram_rs.DataStructures.SpeedCache.{SpeedCache}
use gigadoram_rs.DataStructures.SpeedCache.Frame.{query_frame}
use gigadoram_rs.DataStructures.SpeedCache.Write.{Appended, write_lem}
use gigadoram_rs.DataStructures.OhTable.Api.{OhTableApi}
use gigadoram_rs.Doram.GigaDoram.State.{Level, GigaDoram}
use gigadoram_rs.Doram.GigaDoram.Target.{live_keys}
use gigadoram_rs.Doram.GigaDoram.Invariant.{IsValid, LevelsValid, recent}
use gigadoram_rs.Doram.GigaDoram.Access.{Accumulated, query_levels, query_keys, tags, access}
use gigadoram_rs.Doram.GigaDoram.Access.Budget.{query_levels_lem}

module _ {V : Type 0} ⦃d : DoramValue V⦄ (api : OhTableApi V) where
  pub keys_lem :
      (packed : Option (List api.Key)) (levels : List (Level api.Table))
      → ((keys : List api.Key) → packed ≡ some keys → keys ≡ live_keys api levels)
      → elim packed [ none ↦ live_keys api levels | some keys ↦ keys ] ≡ live_keys api levels
  keys_lem none levels h = refl
  keys_lem (some keys) levels h = h keys refl

  -- What an access changes in a well-formed hierarchy.
  pub record Accessed (g g' : GigaDoram api) : Type 0 where
    pub valid : IsValid api g'
    pub one_more : g'.speed_cache.num_stored ≡ suc g.speed_cache.num_stored
    pub same_config : g'.config ≡ g.config

  written_lem :
      (c written : SpeedCache V) (x : ℕ) (y : Record V)
      → SpeedCache.Spec.IsValid c
      → c.num_stored < c.length
      → SpeedCache.write c (x ∷ []) (y ∷ []) ≡ some written
      → Appended c (x ∷ []) (y ∷ []) written
  written_lem c written x y v room h =
      let (c', e, appended) = write_lem c (x ∷ []) (y ∷ []) v refl room (omega arith) in
      let same : c' ≡ written = cc in subst (λ w. Appended c (x ∷ []) (y ∷ []) w) same appended

  pub access-IsValid :
      (g g' : GigaDoram api) (x : ℕ) (write_y : Option V) (random : ℕ → ℕ) (v : V)
      → IsValid api g
      → g.speed_cache.num_stored < g.speed_cache.length
      → access api g x write_y random ≡ some (g', v)
      → Accessed g g'
  unfolding access
  access-IsValid g g' x write_y random v valid room h =
      let ((cache, (y_cached, found)), e1, h1) =
        >>=-eq-some {A = SpeedCache V × (Record V × Bool)} _ _ h in
      let ((levels, last), e2, h2) =
        >>=-eq-some {A = List (Level api.Table) × Accumulated api} _ _ h1 in
      let (written, e3, h3) = >>=-eq-some {A = SpeedCache V} _ _ h2 in
      let keys = query_keys api g in
      let framed = query_frame g.speed_cache cache x (y_cached, found) valid.cache_valid e1 in
      let appended =
        written_lem cache written x _ framed.valid (omega (arith, framed.count, framed.capacity))
          e3 in
      let current : keys ≡ live_keys api g.levels =
        keys_lem g.packed_query_key g.levels valid.keys_current in
      let e2' =
        subst
          (λ ks.
            query_levels api 0 g.levels (tags api ks x) random
              (record { y_accum = y_cached; found = found })
            ≡ some (levels, last))
          current e2 in
      let queried =
        query_levels_lem api g.config x random 0 (recent api g) g.levels valid.levels_valid _ last
          levels e2' in
      let same : (record g { speed_cache = written; levels = levels; packed_query_key = some keys })
          ≡ g' =
        cc in
      subst (λ r. Accessed g r) same
        (record {
          valid = record {
            config_valid = valid.config_valid;
            levels_length = queried.same_length ∙ valid.levels_length;
            cache_valid = appended.valid;
            cache_length = appended.capacity ∙ framed.capacity ∙ valid.cache_length;
            cache_log = appended.log_size ∙ framed.log_size ∙ valid.cache_log;
            stash_stored = omega (arith, appended.count, framed.count, valid.stash_stored);
            levels_valid =
                subst (λ (n : ℕ). LevelsValid api g.config 0 n levels)
                  (omega (arith, appended.count, framed.count, valid.stash_stored)) queried.valid;
            keys_current = λ ks same_keys.
                let held : keys ≡ ks = cc in sym held ∙ current ∙ sym queried.same_keys;
            batch_keys_current = λ count ks held.
                valid.batch_keys_current count ks held
                ∙ ap (replicate count) (sym queried.same_keys);
          };
          one_more = omega (arith, appended.count, framed.count);
          same_config = refl;
        })
