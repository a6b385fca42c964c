-- ===== src/Doram/GigaDoram/Grow.antt =====
-- Growing the address space by one bit: `ready_to_grow_naturally`, `grow_naturally` and
-- `finish_grow`, and `grow_on_demand`.
use gigadoram_rs.Base.{
  ℕ, ◌+◌, ◌-◌, ◌^◌, List, [], ◌∷◌, map, ltb, ◌++◌, Option, none, some, Bool, true, false, not, leb,
  ◌==◌, ◌&&◌, if◌then◌else◌, length, range, resize, replicate, ◌>>=◌, ◌>>◌, ensure,
}
use gigadoram_rs.Primitives.Value.{DoramValue, Record, zero_record, clear_alibi}
use gigadoram_rs.DataStructures.SpeedCache
use gigadoram_rs.DataStructures.OhTable.Api.{OhTableApi}
use gigadoram_rs.Doram.Config.{GigaDoramConfig, validate, speed_cache_size, amp_factor}
use gigadoram_rs.Doram.GigaDoram.State.{GigaDoram, Level, empty_level}
use gigadoram_rs.Doram.GigaDoram.Target.{rebuild_target}
use gigadoram_rs.Doram.GigaDoram.Bottom.{replace_if_dummy, finalize_bottom_level}
use gigadoram_rs.Doram.GigaDoram.Rebuild.{RebuildCoins, collect, new_ohtable_of_level, insert_stash}

-- The addresses or labels from `first` on, at least one, each of which must fit `X`.
unfoldable pub fitting_labels : ℕ → ℕ → Option (List ℕ)
fitting_labels first count = do ensure (leb (first + count) (2 ^ 32)); some (range first count)

module _ {V : Type 0} ⦃d : DoramValue V⦄ (api : OhTableApi V) where
  -- The cleansed entries, padded to the new address space.
  unfoldable pub widen : Bool → ℕ → ℕ → List ℕ → Option (List ℕ)
  unfolding fitting_labels
  widen true old_log_n new_log_n xs = do
    fresh ← fitting_labels (2 ^ old_log_n) (2 ^ new_log_n - 2 ^ old_log_n)
    some (xs ++ fresh)
  widen false old_log_n new_log_n xs = do
    let padded = resize (2 ^ new_log_n) (2 ^ old_log_n) xs
    replacements ← fitting_labels (2 ^ new_log_n) (2 ^ new_log_n)
    some (replace_if_dummy old_log_n padded replacements)

  unfoldable pub finish_grow :
      GigaDoram api
      → GigaDoramConfig
      → List ℕ
      → List (Record V)
      → api.Coins
      → Option (GigaDoram api)
  unfolding widen new_ohtable_of_level insert_stash SpeedCache.new
  finish_grow g new_config xs ys coins = do
    let old_log_n = g.config.log_address_space_size
    let new_log_n = new_config.log_address_space_size
    ensure (leb (length xs) (2 ^ new_log_n))
    xs' ← widen g.had_initial_bottom_level old_log_n new_log_n xs
    let ys' = resize (2 ^ new_log_n) zero_record ys
    let fresh : GigaDoram api = record {
      config = new_config;
      speed_cache = SpeedCache.new (speed_cache_size new_config) new_log_n;
      levels = replicate new_config.num_levels (empty_level api);
      packed_query_key = none;
      packed_batch_query_keys = none;
      had_initial_bottom_level = g.had_initial_bottom_level;
    }
    let bottom = new_config.num_levels - 1
    built ← new_ohtable_of_level api fresh bottom xs' ys' coins
    insert_stash api built bottom

  unfoldable pub ready_to_grow_naturally : GigaDoram api → Bool
  unfolding rebuild_target SpeedCache.is_writeable
  ready_to_grow_naturally g = elim (rebuild_target (amp_factor g.config) 0 g.levels) [
    | none ↦ false
    | some (rebuild_to, inclusive) ↦
        not (SpeedCache.is_writeable g.speed_cache) && (rebuild_to == g.config.num_levels - 1)
  ]

  unfoldable pub grow_naturally :
      GigaDoram api → GigaDoramConfig → RebuildCoins api → Option (GigaDoram api)
  unfolding ready_to_grow_naturally rebuild_target collect finalize_bottom_level finish_grow
  grow_naturally g new_config coins = do
    ensure (new_config.log_address_space_size == g.config.log_address_space_size + 1)
    validate new_config
    ensure (ready_to_grow_naturally g)
    (rebuild_to, inclusive) ← rebuild_target (amp_factor g.config) 0 g.levels
    (xs, ys) ← collect api g (rebuild_to + (if inclusive then 1 else 0))
    (xs', ys') ←
        finalize_bottom_level g.config g.had_initial_bottom_level coins.shuffler coins.sort_perm xs
          ys
    finish_grow g new_config xs' ys' coins.table

  -- The untouched entries of every live level, appended.
  pub untouched_levels :
      List (Level api.Table) → List ℕ → List (Record V) → List ℕ × List (Record V)
  untouched_levels [] xs ys = (xs, ys)
  untouched_levels (l ∷ ls) xs ys = elim l.table [
    | none ↦ untouched_levels ls xs ys
    | some t ↦
        let (level_xs, level_ys) = api.extract_untouched t in
        untouched_levels ls (xs ++ level_xs) (ys ++ level_ys)
  ]

  unfoldable pub grow_on_demand :
      GigaDoram api → GigaDoramConfig → RebuildCoins api → Option (GigaDoram api)
  unfolding untouched_levels finalize_bottom_level finish_grow SpeedCache.extract_stored
  grow_on_demand g new_config coins = do
    ensure (new_config.log_address_space_size == g.config.log_address_space_size + 1)
    validate new_config
    let (cache_xs, cache_ys) = SpeedCache.extract_stored g.speed_cache
    let (xs, ys) = untouched_levels g.levels cache_xs cache_ys
    ensure (ltb 0 (length xs))
    (xs', ys') ←
        finalize_bottom_level g.config g.had_initial_bottom_level coins.shuffler coins.sort_perm xs
          (map clear_alibi ys)
    finish_grow g new_config xs' ys' coins.table
