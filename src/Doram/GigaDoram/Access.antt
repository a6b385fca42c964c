-- ===== src/Doram/GigaDoram/Access.antt =====
-- The entry points of the hierarchy: building it from initial values, `read`, `write` and
-- `read_and_maybe_write`. A table is asked for the tag of the address under its key; the keys come
-- from `packed_query_key`, and are packed when it is empty. `packed_batch_query_keys` belongs to
-- `batch_access`. The rows that `precompute_query` hands to the cache are those of its circuit.
pub mod Budget
pub mod Kept
use gigadoram_rs.Base.{
  ℕ, suc, ◌+◌, ◌-◌, List, [], ◌∷◌, map, Option, none, some, Bool, true, ◌==◌, if◌then◌else◌, length,
  range, replicate, ◌>>=◌, ◌>>◌, ensure,
}
use gigadoram_rs.Primitives.Rep3.{differ}
use gigadoram_rs.Primitives.Value.{DoramValue, Record, xor_record, from_value}
use gigadoram_rs.DataStructures.SpeedCache
use gigadoram_rs.DataStructures.OhTable.Api.{OhTableApi}
use gigadoram_rs.Doram.Config.{GigaDoramConfig, validate, speed_cache_size}
use gigadoram_rs.Doram.GigaDoram.State.{Level, GigaDoram, empty_level, bottom_num_elements}
use gigadoram_rs.Doram.GigaDoram.Target.{live_keys}
use gigadoram_rs.Doram.GigaDoram.Rebuild.{RebuildCoins, rebuild, new_ohtable_of_level, insert_stash}

unfoldable pub unwrap_or : {A : Type 0} → Option A → A → A
unwrap_or none a = a
unwrap_or (some x) a = x

module _ {V : Type 0} ⦃d : DoramValue V⦄ (api : OhTableApi V) where
  unfoldable pub new_with_initial_bottom_level :
      GigaDoramConfig → List V → api.Coins → Option (GigaDoram api)
  unfolding new_ohtable_of_level insert_stash SpeedCache.new
  new_with_initial_bottom_level config ys coins = do
    validate config
    ensure (length ys == bottom_num_elements config)
    let bottom_level = config.num_levels - 1
    let doram : GigaDoram api = record {
      config = config;
      speed_cache = SpeedCache.new (speed_cache_size config) config.log_address_space_size;
      levels = replicate config.num_levels (empty_level api);
      packed_query_key = none;
      packed_batch_query_keys = none;
      had_initial_bottom_level = true;
    }
    built ←
        new_ohtable_of_level api doram bottom_level (range 0 (bottom_num_elements config))
          (map from_value ys) coins
    insert_stash api built bottom_level

  -- What a query accumulates over the levels.
  pub record Accumulated : Type 0 where
    pub y_accum : Record V
    pub found : Bool

  -- The tags of an address, one for each packed key.
  abbrev pub tags : List api.Key → ℕ → List ℕ
  tags keys x = map (λ k. api.prf k x) keys

  -- The walk over the live levels, from `level` on: a level is asked for a dummy if the address
  -- has been found or the alibi bit of the level is set, and not if both hold. `random level` is
  -- the tag that the table draws for its dummy selection.
  unfoldable pub query_levels :
      ℕ
      → List (Level api.Table)
      → List ℕ
      → (ℕ → ℕ)
      → Accumulated
      → Option (List (Level api.Table) × Accumulated)
  query_levels level [] qs random acc = some ([], acc)
  query_levels level (l ∷ ls) qs random acc = elim l.table [
    | none ↦ do (ls', acc') ← query_levels (suc level) ls qs random acc; some (l ∷ ls', acc')
    | some t ↦ elim qs [
      | [] ↦ some (l ∷ ls, acc)
      | q ∷ rest ↦ do
        let use_dummy = differ (acc.y_accum.alibi level) acc.found
        (t', (y_returned, found_returned)) ← api.query t q use_dummy (random level)
        let acc' : Accumulated = record {
          y_accum = xor_record acc.y_accum y_returned;
          found = differ acc.found found_returned;
        }
        (ls', last) ← query_levels (suc level) ls rest random acc'
        some (record l { table = some t' } ∷ ls', last)
    ]
  ]

  -- `get_or_insert` on the packed keys.
  abbrev pub query_keys : GigaDoram api → List api.Key
  query_keys g = elim g.packed_query_key [ none ↦ live_keys api g.levels | some keys ↦ keys ]

  unfoldable pub access : GigaDoram api → ℕ → Option V → (ℕ → ℕ) → Option (GigaDoram api × V)
  unfolding unwrap_or query_levels SpeedCache.query SpeedCache.write
  access g query_x write_y random = do
    let keys = query_keys g
    let qs = tags keys query_x
    (speed_cache, (y_cached, found)) ← SpeedCache.query g.speed_cache query_x none
    let start : Accumulated = record { y_accum = y_cached; found = found }
    (levels, last) ← query_levels 0 g.levels qs random start
    let value_to_write = unwrap_or write_y last.y_accum.value
    written ← SpeedCache.write speed_cache (query_x ∷ []) (from_value value_to_write ∷ [])
    some (
      record g { speed_cache = written; levels = levels; packed_query_key = some keys },
      last.y_accum.value,
    )

  unfoldable pub read_and_maybe_write :
      GigaDoram api → ℕ → Option V → RebuildCoins api → (ℕ → ℕ) → Option (GigaDoram api × V)
  unfolding rebuild access SpeedCache.is_writeable
  read_and_maybe_write g query_x write_y coins random =
      if SpeedCache.is_writeable g.speed_cache
      then access g query_x write_y random
      else do rebuilt ← rebuild api g coins; access rebuilt query_x write_y random

  abbrev pub read : GigaDoram api → ℕ → RebuildCoins api → (ℕ → ℕ) → Option (GigaDoram api × V)
  read g query_x coins random = read_and_maybe_write g query_x none coins random

  abbrev pub write : GigaDoram api → ℕ → V → RebuildCoins api → (ℕ → ℕ) → Option (GigaDoram api × V)
  write g query_x query_y coins random = read_and_maybe_write g query_x (some query_y) coins random
