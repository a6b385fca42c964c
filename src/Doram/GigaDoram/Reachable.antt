-- ===== src/Doram/GigaDoram/Reachable.antt =====
-- The hierarchies that a program can reach: a new one, and what accesses make of it.
use gigadoram_rs.Base.{
  ℕ, zero, suc, ◌+◌, ◌*◌, ◌<◌, ◌≡◌, refl, subst, arith, List, [], ◌∷◌, Option, none, some, false,
  length, replicate, length-replicate,
}
use gigadoram_rs.Primitives.Value.{DoramValue}
use gigadoram_rs.DataStructures.SpeedCache
use gigadoram_rs.DataStructures.SpeedCache.Write.{skip-new_IsValid}
use gigadoram_rs.DataStructures.OhTable.Api.{OhTableApi}
use gigadoram_rs.Doram.Config.{GigaDoramConfig, amp_factor, speed_cache_size}
use gigadoram_rs.Doram.Config.Laws
use gigadoram_rs.Doram.Config.Laws.{validate_iff}
use gigadoram_rs.Doram.GigaDoram.State.{Level, GigaDoram, empty_level, new}
use gigadoram_rs.Doram.GigaDoram.Invariant.{IsValid, TableIsValid, LevelsValid, period, recent}
use gigadoram_rs.Doram.GigaDoram.Periods.{amp_positive, period-suc, period-zero, below_next}

module _ {V : Type 0} ⦃d : DoramValue V⦄ (api : OhTableApi V) where
  empty_levels-valid :
      (c : GigaDoramConfig) (level n : ℕ)
      → LevelsValid api c level 0 (replicate n (empty_level api))
  empty_levels-valid c level zero = tt
  empty_levels-valid c level (suc n) = (
    refl,
    (λ _. amp_positive c),
    subst (λ (w : ℕ). LevelsValid api c (suc level) w (replicate n (empty_level api))) (omega arith)
        (empty_levels-valid c (suc level) n),
  )

  -- For a valid configuration `new` succeeds, and gives a well-formed hierarchy whose cache has
  -- `fill_time` free slots.
  pub new-IsValid :
      (c : GigaDoramConfig)
      → Laws.IsValid c
      → (g : GigaDoram api) × (new api c ≡ some g)
        × IsValid api g
        × (g.config ≡ c)
        × (g.speed_cache.num_stored ≡ c.stash_size)
  unfolding new
  new-IsValid c v =
      let (cache, e, valid, count, size, log_size) =
        skip-new_IsValid (speed_cache_size c) c.log_address_space_size c.stash_size
          (omega (arith, v.stash_fits)) in
      let levels = replicate c.num_levels (empty_level api) in
      (
        record {
          config = c;
          speed_cache = cache;
          levels = levels;
          packed_query_key = none;
          packed_batch_query_keys = none;
          had_initial_bottom_level = false;
        },
        rw ((validate_iff c).1 v, e),
        record {
          config_valid = v;
          levels_length = length-replicate c.num_levels (empty_level api);
          cache_valid = valid;
          cache_length = size;
          cache_log = log_size;
          stash_stored = omega (arith, count);
          levels_valid =
              subst (λ (w : ℕ). LevelsValid api c 0 w levels) (omega (arith, count))
                (empty_levels-valid c 0 c.num_levels);
          keys_current = λ keys h. cc;
          batch_keys_current = λ count keys h. cc;
        },
        refl,
        count,
      )

  -- Every live table of the levels has dummies left.
  abbrev pub SpareTable : Option api.Table → Type 0
  SpareTable none = Unit {0}
  SpareTable (some t) = api.query_count t < (api.params t).num_dummies

  abbrev pub Spare : List (Level api.Table) → Type 0
  Spare [] = Unit {0}
  Spare (l ∷ ls) = SpareTable l.table × Spare ls

  spare_table :
      (c : GigaDoramConfig) (level accesses digit : ℕ) (table : Option api.Table)
      → TableIsValid api c level accesses digit table
      → accesses < period c level
      → SpareTable table
  spare_table c level accesses digit none valid lt = tt
  spare_table c level accesses digit (some t) serves lt = omega (arith, serves.used, serves.dummies)

  Spare-from :
      (c : GigaDoramConfig) (level accesses : ℕ) (ls : List (Level api.Table))
      → LevelsValid api c level accesses ls
      → accesses < period c level
      → level + length ls ≡ c.num_levels
      → Spare ls
  Spare-from c level accesses [] valid lt count = tt
  Spare-from c level accesses (l ∷ []) (valid, fits, rest) lt count =
      (spare_table c level accesses l.digit l.table valid lt, tt)
  Spare-from c level accesses (l ∷ m ∷ ls) (valid, fits, rest) lt count = (
    spare_table c level accesses l.digit l.table valid lt,
    Spare-from c (suc level) (accesses + l.digit * period c level) (m ∷ ls) rest
        (omega (
          arith,
          period-suc c level,
          below_next (amp_factor c) (period c level) accesses l.digit lt (fits (omega arith)),
        ))
        (omega arith),
  )

  -- As long as the cache of a well-formed hierarchy has a free slot, every live table has a dummy
  -- left for the next query: the assertion at the start of `OhTable::query` holds.
  pub query_budget :
      (g : GigaDoram api)
      → IsValid api g
      → g.speed_cache.num_stored < g.speed_cache.length
      → Spare g.levels
  query_budget g v room =
      Spare-from g.config 0 (recent api g) g.levels v.levels_valid
        (omega (arith, period-zero g.config, v.cache_length, v.stash_stored))
        (omega (arith, v.levels_length))
