-- ===== src/Doram/GigaDoram/Rebuild/Collecting.antt =====
-- The collecting part of a rebuild on a full cache never fails, and gives the number of entries
-- that the rebuilt level is made for.
use gigadoram_rs.Base.{
  ℕ, suc, ◌+◌, ◌<◌, ◌≡◌, sym, ap, ◌∙◌, arith, List, [], ◌∷◌, map, some, Bool, true, if◌then◌else◌,
  ltb, length, get_elem?, length-map, lt→ltb, ==_iff,
}
use gigadoram_rs.Primitives.Value.{DoramValue, Record, clear_alibi}
use gigadoram_rs.DataStructures.SpeedCache
use gigadoram_rs.DataStructures.OhTable.Api.{OhTableApi}
use gigadoram_rs.Doram.Config.{GigaDoramConfig, amp_factor}
use gigadoram_rs.Doram.GigaDoram.State.{Level, GigaDoram, num_elements_at}
use gigadoram_rs.Doram.GigaDoram.Target.{rebuild_target, extract_levels}
use gigadoram_rs.Doram.GigaDoram.Invariant.{IsValid, LevelsValid, period, recent}
use gigadoram_rs.Doram.GigaDoram.Periods.{
  period-zero, capacity, capacity-zero, capacity_positive, num_elements_at-inner,
}
use gigadoram_rs.Doram.GigaDoram.Collect.{Collected, collect_from}
use gigadoram_rs.Doram.GigaDoram.Rebuild.{collect}

module _ {V : Type 0} ⦃d : DoramValue V⦄ (api : OhTableApi V) where
  collect_all :
      (c : GigaDoramConfig) (levels : List (Level api.Table)) (accesses : ℕ) (xs : List ℕ)
      (ys : List (Record V))
      → 0 < length levels
      → LevelsValid api c 0 accesses levels
      → accesses ≡ period c 0
      → length levels ≡ c.num_levels
      → length xs ≡ capacity c 0
      → length xs ≡ length ys
      → Collected api c 0 levels xs ys
  collect_all c [] accesses xs ys some_level valid due count size same = absurd (omega arith)
  collect_all c (l ∷ ls) accesses xs ys some_level valid due count size same =
      collect_from api c 0 accesses l ls xs ys valid due (omega arith) size same

  -- A well-formed hierarchy with a full cache.
  pub record Full (g : GigaDoram api) : Type 0 where
    pub valid : IsValid api g
    pub full : g.speed_cache.num_stored ≡ g.speed_cache.length

  pub collected :
      (g : GigaDoram api)
      → Full g
      → Collected api g.config 0 g.levels g.speed_cache.addrs g.speed_cache.entries
  collected g f =
      let v = f.valid in
      collect_all g.config g.levels (recent api g) g.speed_cache.addrs g.speed_cache.entries
        (omega (arith, v.levels_length, v.config_valid.has_level)) v.levels_valid
        (omega (arith, f.full, v.cache_length, period-zero g.config)) v.levels_length
        (omega (arith, v.cache_valid.addrs_length, v.cache_length, capacity-zero g.config))
        (omega (arith, v.cache_valid.addrs_length, v.cache_valid.entries_length))

  pub collect_result :
      (g : GigaDoram api) (f : Full g)
      → let r = collected g f in
        collect api g (r.rebuild_to + (if r.inclusive then 1 else 0))
        ≡ some (r.out_xs, map clear_alibi r.out_ys)
  unfolding collect SpeedCache.extract
  collect_result g f =
      let r = collected g f in
      let v = f.valid in
      let walk : extract_levels api g.config 0 (r.rebuild_to + (if r.inclusive then 1 else 0))
            g.levels g.speed_cache.addrs g.speed_cache.entries
          ≡ some (r.out_xs, r.out_ys) =
        ap
          (λ (n : ℕ).
            extract_levels api g.config 0 (n + (if r.inclusive then 1 else 0)) g.levels
              g.speed_cache.addrs g.speed_cache.entries)
          {y = r.above} (omega (arith, r.position))
        ∙ r.result in
      let nonempty : ltb 0 (length r.out_xs) ≡ true =
        lt→ltb 0 (length r.out_xs)
          (omega (arith, r.enough, capacity_positive g.config r.rebuild_to)) in
      rw (
        (==_iff _ _).1 f.full,
        (==_iff _ _).1 v.cache_valid.addrs_length,
        (==_iff _ _).1 v.cache_valid.entries_length,
        walk,
        nonempty,
        (==_iff _ _).1 r.same_length,
      )

  -- With a full cache the collecting pass of `rebuild` succeeds on a well-formed hierarchy: there is
  -- a level to rebuild, there are as many addresses as records, and for a level above the bottom one
  -- their number is the number of elements of the level's next state, as `rebuild` asserts, and that
  -- state is below the amplification factor.
  pub collect_lem :
      (g : GigaDoram api)
      → Full g
      → (rebuild_to : ℕ) × (inclusive : Bool) × (target : Level api.Table) × (xs : List ℕ)
        × (ys : List (Record V)) × (rebuild_target (amp_factor g.config) 0 g.levels
            ≡ some (rebuild_to, inclusive))
        × (get_elem? g.levels rebuild_to ≡ some target)
        × (collect api g (rebuild_to + (if inclusive then 1 else 0)) ≡ some (xs, ys))
        × (length xs ≡ length ys)
        × (suc rebuild_to < g.config.num_levels
            → (length xs ≡ num_elements_at g.config rebuild_to (suc target.digit))
              × (suc target.digit < amp_factor g.config))
  collect_lem g f =
      let r = collected g f in
      (
        r.rebuild_to,
        r.inclusive,
        r.target,
        r.out_xs,
        map clear_alibi r.out_ys,
        r.target_lem,
        ap (get_elem? g.levels) {y = r.above} (omega (arith, r.position)) ∙ r.at_target,
        collect_result g f,
        r.same_length ∙ sym (length-map r.out_ys clear_alibi),
        λ inner.
            let (fits, size) = r.exact inner in
            (
              size ∙ sym (num_elements_at-inner g.config r.rebuild_to (suc r.target.digit) inner),
              fits,
            ),
      )
