-- ===== src/Doram/GigaDoram/Rebuild/Kept.antt =====
-- A rebuild keeps the hierarchy well-formed and leaves a fresh budget.
use gigadoram_rs.Base.{
  ℕ, ◌+◌, ◌^◌, ◌<◌, ◌≡◌, refl, sym, subst, ◌∙◌, arith, List, map, none, some, if◌then◌else◌, length,
  get_elem?, set, length-replicate, length-set, get_elem?-set_self, >>=-eq-some,
}
use gigadoram_rs.Primitives.Value.{DoramValue, Record, zero_record, clear_alibi}
use gigadoram_rs.DataStructures.SpeedCache
use gigadoram_rs.DataStructures.OhTable.Api.{OhTableApi}
use gigadoram_rs.Doram.Config.{speed_cache_size}
use gigadoram_rs.Doram.GigaDoram.State.{Level, GigaDoram}
use gigadoram_rs.Doram.GigaDoram.Target.{delete_levels}
use gigadoram_rs.Doram.GigaDoram.Invariant.{IsValid, LevelsValid, Serves}
use gigadoram_rs.Doram.GigaDoram.Rebuild.{
  RebuildCoins, rebuild_level, new_ohtable_of_level, insert_stash, entries_for, rebuild,
}
use gigadoram_rs.Doram.GigaDoram.Rebuild.Steps.{
  next_digit-positive, length-delete_levels, Installed, new_ohtable_of_level_lem, insert_stash_lem,
  elements_lem,
}
use gigadoram_rs.Doram.GigaDoram.Rebuild.Collecting.{Full, collected, collect_result}

module _ {V : Type 0} ⦃d : DoramValue V⦄ (api : OhTableApi V) where
  -- What a rebuild changes in a well-formed hierarchy with a full cache.
  pub record Rebuilt (g g' : GigaDoram api) : Type 0 where
    pub valid : IsValid api g'
    pub restarted : g'.speed_cache.num_stored ≡ g.config.stash_size
    pub writeable : g'.speed_cache.num_stored < g'.speed_cache.length
    pub same_config : g'.config ≡ g.config
    pub same_origin : g'.had_initial_bottom_level ≡ g.had_initial_bottom_level

  new_cache-IsValid : (size log : ℕ) → SpeedCache.Spec.IsValid {V = V} (SpeedCache.new size log)
  unfolding SpeedCache.new
  new_cache-IsValid size log = record {
    addrs_length = length-replicate size (2 ^ log);
    entries_length = length-replicate size zero_record;
    stored = omega arith;
  }

  -- The hierarchy between the collecting loop and the new table.
  abbrev cleared_for : (g : GigaDoram api) → Full api g → GigaDoram api
  cleared_for g f =
      let r = collected api g f in
      record g {
        speed_cache = SpeedCache.new (speed_cache_size g.config) g.config.log_address_space_size;
        levels = delete_levels g.config 0 (r.rebuild_to + (if r.inclusive then 1 else 0)) g.levels;
        packed_query_key = none;
        packed_batch_query_keys = none;
      }

  rebuilt_lem :
      (g g' : GigaDoram api) (f : Full api g) (coins : RebuildCoins api) (rebuilt : GigaDoram api)
      (level_xs : List ℕ) (level_ys : List (Record V))
      → let r = collected api g f in
        entries_for api g r.rebuild_to coins r.out_xs (map clear_alibi r.out_ys)
          ≡ some (level_xs, level_ys)
        → Installed api (cleared_for g f) rebuilt r.rebuild_to (length level_xs)
        → insert_stash api rebuilt r.rebuild_to ≡ some g'
        → Rebuilt g g'
  unfolding SpeedCache.new
  rebuilt_lem g g' f coins rebuilt level_xs level_ys entries made stashed =
      let c = g.config in
      let r = collected api g f in
      let v = f.valid in
      let new_level : Level api.Table = record { digit = made.digit; table = some made.table } in
      let old_levels = (cleared_for g f).levels in
      let ready : GigaDoram api = record (cleared_for g f) {
        levels = set old_levels r.rebuild_to new_level;
        packed_query_key = none;
        packed_batch_query_keys = none;
      } in
      let here : r.rebuild_to ≡ r.above = omega (arith, r.position) in
      let in_levels : r.rebuild_to < length old_levels = omega (
        arith,
        r.in_range,
        v.levels_length,
        length-delete_levels c 0 (r.rebuild_to + (if r.inclusive then 1 else 0)) g.levels,
      ) in
      let at : get_elem? (delete_levels c 0 (r.above + (if r.inclusive then 1 else 0)) g.levels)
            r.above
          ≡ some made.before =
        subst
          (λ (n : ℕ).
            get_elem? (delete_levels c 0 (n + (if r.inclusive then 1 else 0)) g.levels) n
            ≡ some made.before)
          here made.at_level in
      let serves : Serves api c r.rebuild_to 0 made.digit made.table = record {
        digit_positive = next_digit-positive c r.rebuild_to made.before.digit made.digit made.next;
        dummies = made.dummies;
        elements =
            made.elements
            ∙ elements_lem api g f coins level_xs level_ys made.before made.digit entries at
                made.next;
        stash = made.stash;
        used = made.unused;
      } in
      let levels_valid : LevelsValid api c 0 0 (set old_levels r.rebuild_to new_level) =
        subst
          (λ (n : ℕ).
            LevelsValid api c 0 0
              (set (delete_levels c 0 (n + (if r.inclusive then 1 else 0)) g.levels) n new_level))
          (sym here) (r.renewed made.before made.digit made.table at made.next serves) in
      let (cache, result, appended) =
        insert_stash_lem api ready g' r.rebuild_to made.digit made.table
          (get_elem?-set_self old_levels r.rebuild_to new_level in_levels)
          (new_cache-IsValid (speed_cache_size c) c.log_address_space_size)
          (made.stash_xs_length ∙ sym made.stash_ys_length)
          (omega (arith, v.config_valid.stash_fits))
          (omega (arith, v.config_valid.stash_fits, made.stash_xs_length))
          (subst (λ x. insert_stash api x r.rebuild_to ≡ some g') made.result stashed) in
      let count : cache.num_stored ≡ c.stash_size =
        omega (arith, appended.count, made.stash_xs_length) in
      subst (λ x. Rebuilt g x) (sym result)
        (record {
          valid = record {
            config_valid = v.config_valid;
            levels_length =
                length-set old_levels r.rebuild_to new_level
                ∙ length-delete_levels c 0 (r.rebuild_to + (if r.inclusive then 1 else 0)) g.levels
                ∙ v.levels_length;
            cache_valid = appended.valid;
            cache_length = appended.capacity;
            cache_log = appended.log_size;
            stash_stored = omega (arith, count);
            levels_valid =
                subst (λ (n : ℕ). LevelsValid api c 0 n (set old_levels r.rebuild_to new_level))
                  (omega (arith, count)) levels_valid;
            keys_current = λ keys h. cc;
            batch_keys_current = λ count keys h. cc;
          };
          restarted = count;
          writeable = omega (arith, count, appended.capacity, v.config_valid.stash_fits);
          same_config = refl;
          same_origin = refl;
        })

  pub rebuild-IsValid :
      (g g' : GigaDoram api) (coins : RebuildCoins api)
      → Full api g
      → rebuild api g coins ≡ some g'
      → Rebuilt g g'
  unfolding rebuild rebuild_level
  rebuild-IsValid g g' coins f h =
      let c = g.config in
      let r = collected api g f in
      let to = r.rebuild_to in
      let count : ℕ = to + (if r.inclusive then 1 else 0) in
      let ys = map clear_alibi r.out_ys in
      let run : rebuild api g coins ≡ rebuild_level api g to r.inclusive r.out_xs ys coins =
        rw (r.target_lem, collect_result api g f) in
      let ((level_xs, level_ys), e1, h1) =
        >>=-eq-some {B = GigaDoram api} (entries_for api g to coins r.out_xs ys) _ (sym run ∙ h) in
      let cleared = cleared_for g f in
      let (rebuilt, e2, h2) =
        >>=-eq-some (new_ohtable_of_level api cleared to level_xs level_ys coins.table) _ h1 in
      let made = new_ohtable_of_level_lem api cleared rebuilt to level_xs level_ys coins.table e2 in
      rebuilt_lem g g' f coins rebuilt level_xs level_ys e1 made h2
