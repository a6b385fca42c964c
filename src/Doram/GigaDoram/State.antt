-- ===== src/Doram/GigaDoram/State.antt =====
-- The state of the hierarchy: the fields of `GigaDoram`. The entries of `levels` and of
-- `base_b_state_vec` for one level stand together.
use gigadoram_rs.Base.{
  ℕ, ◌+◌, ◌-◌, ◌*◌, ◌^◌, List, Option, none, some, Bool, false, ◌==◌, ltb, if◌then◌else◌, replicate,
  ◌>>=◌, ◌>>◌,
}
use gigadoram_rs.Primitives.Value.{DoramValue}
use gigadoram_rs.DataStructures.SpeedCache
use gigadoram_rs.DataStructures.SpeedCache.{SpeedCache}
use gigadoram_rs.DataStructures.OhTable.Api.{OhTableApi}
use gigadoram_rs.Doram.Config.{
  GigaDoramConfig, speed_cache_size, fill_time, amp_factor, validate, usize_bits,
}

-- `base_b_state_vec[level]` and `levels[level]`.
pub record Level (T : Type 0) : Type 0 where
  pub digit : ℕ
  pub table : Option T

module _ {V : Type 0} ⦃d : DoramValue V⦄ (api : OhTableApi V) where
  -- `packed_query_key` holds the packed keys of the live levels, and `packed_batch_query_keys` those
  -- of each query of a batch, with the number of queries.
  pub record GigaDoram : Type 0 where
    pub config : GigaDoramConfig
    pub speed_cache : SpeedCache V
    pub levels : List (Level api.Table)
    pub packed_query_key : Option (List api.Key)
    pub packed_batch_query_keys : Option (ℕ × List (List api.Key))
    pub had_initial_bottom_level : Bool

  abbrev pub empty_level : Level api.Table
  empty_level = record { digit = 0; table = none }

  unfoldable pub new : GigaDoramConfig → Option GigaDoram
  new config = do
    validate config
    speed_cache ←
        SpeedCache.skip (SpeedCache.new (speed_cache_size config) config.log_address_space_size)
          config.stash_size
    some (record {
      config = config;
      speed_cache = speed_cache;
      levels = replicate config.num_levels empty_level;
      packed_query_key = none;
      packed_batch_query_keys = none;
      had_initial_bottom_level = false;
    })

-- `num_dummies`: the multiplication is checked.
unfoldable pub num_dummies : GigaDoramConfig → ℕ → Option ℕ
num_dummies c level =
    if ltb (amp_factor c ^ level * fill_time c) (2 ^ usize_bits)
    then some (amp_factor c ^ level * fill_time c)
    else none

abbrev pub bottom_num_elements : GigaDoramConfig → ℕ
bottom_num_elements c = 2 ^ c.log_address_space_size

unfoldable pub num_elements_at : GigaDoramConfig → ℕ → ℕ → ℕ
num_elements_at c level state =
    if level == c.num_levels - 1
    then bottom_num_elements c
    else state * 2 ^ (level * c.log_amp_factor + c.log_speed_cache_size)

-- `dummy_label`: the label must fit `X`.
unfoldable pub dummy_label : GigaDoramConfig → ℕ → Option ℕ
dummy_label c offset =
    if ltb (2 ^ c.log_address_space_size + offset) (2 ^ 32)
    then some (2 ^ c.log_address_space_size + offset)
    else none
