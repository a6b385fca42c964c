-- ===== src/Doram/GigaDoram/Invariant.antt =====
-- Well-formed hierarchies: the counters of the levels are the digits of the number of accesses,
-- and every table has as many dummies left as there are accesses until it is collected.
use gigadoram_rs.Base.{
  ℕ, suc, ◌+◌, ◌-◌, ◌*◌, ◌^◌, ◌≤◌, ◌<◌, ◌≡◌, List, [], ◌∷◌, Option, none, some, length, replicate,
}
use gigadoram_rs.Primitives.Value.{DoramValue}
use gigadoram_rs.DataStructures.SpeedCache.Spec
use gigadoram_rs.DataStructures.OhTable.Api.{OhTableApi}
use gigadoram_rs.Doram.Config.{GigaDoramConfig, speed_cache_size, fill_time, amp_factor}
use gigadoram_rs.Doram.Config.Laws
use gigadoram_rs.Doram.GigaDoram.State.{Level, GigaDoram, num_elements_at}
use gigadoram_rs.Doram.GigaDoram.Target.{live_keys}

-- The accesses between two rebuilds that collect a level.
abbrev pub period : GigaDoramConfig → ℕ → ℕ
period c level = amp_factor c ^ level * fill_time c

module _ {V : Type 0} (api : OhTableApi V) (c : GigaDoramConfig) where
  -- A table of a level whose last rebuild was `accesses` accesses ago.
  pub record Serves (level accesses digit : ℕ) (t : api.Table) : Type 0 where
    pub digit_positive : 0 < digit
    pub dummies : (api.params t).num_dummies ≡ period c level
    pub elements : (api.params t).num_elements ≡ num_elements_at c level digit
    pub stash : (api.params t).stash_size ≡ c.stash_size
    pub used : api.query_count t ≡ accesses

  abbrev pub TableIsValid : ℕ → ℕ → ℕ → Option api.Table → Type 0
  TableIsValid level accesses digit none = digit ≡ 0
  TableIsValid level accesses digit (some t) = Serves level accesses digit t

  -- Levels from `level` on, where the tables above were filled by `accesses` accesses.
  abbrev pub LevelsValid : ℕ → ℕ → List (Level api.Table) → Type 0
  LevelsValid level accesses [] = Unit {0}
  LevelsValid level accesses (l ∷ ls) =
      TableIsValid level accesses l.digit l.table
      × (suc level < c.num_levels → l.digit < amp_factor c)
      × LevelsValid (suc level) (accesses + l.digit * period c level) ls

-- The accesses since the last rebuild.
abbrev pub recent : {V : Type 0} ⦃d : DoramValue V⦄ (api : OhTableApi V) → GigaDoram api → ℕ
recent api g = g.speed_cache.num_stored - g.config.stash_size

pub record IsValid {V : Type 0} ⦃d : DoramValue V⦄ (api : OhTableApi V) (g : GigaDoram api)
    : Type 0 where
  pub config_valid : Laws.IsValid g.config
  pub levels_length : length g.levels ≡ g.config.num_levels
  pub cache_valid : Spec.IsValid g.speed_cache
  pub cache_length : g.speed_cache.length ≡ speed_cache_size g.config
  pub cache_log : g.speed_cache.log_address_space_size ≡ g.config.log_address_space_size
  pub stash_stored : g.config.stash_size ≤ g.speed_cache.num_stored
  pub levels_valid : LevelsValid api g.config 0 (recent api g) g.levels
  pub keys_current :
      (keys : List api.Key) → g.packed_query_key ≡ some keys → keys ≡ live_keys api g.levels
  pub batch_keys_current :
      (count : ℕ) (keys : List (List api.Key))
      → g.packed_batch_query_keys ≡ some (count, keys)
      → keys ≡ replicate count (live_keys api g.levels)
