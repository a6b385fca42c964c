-- ===== src/Doram/Config.antt =====
-- `GigaDoramConfig` of crates/doram/src/lib.rs. `usize` is 64 bits wide; `none` is a failed
-- assertion or `expect`.
pub mod Laws
mod Tests
use gigadoram_rs.Base.{
  ℕ, ◌+◌, ◌-◌, ◌*◌, ◌^◌, Option, none, some, Bool, ◌&&◌, ltb, leb, ◌==◌, if◌then◌else◌, ◌>>=◌, ◌>>◌,
  ensure,
}

abbrev pub empirical_cht_stash_size : ℕ
empirical_cht_stash_size = 8

abbrev pub proven_cht_stash_size : ℕ
proven_cht_stash_size = 50

pub data ChtBounds : Type 0 where
  empirical proven : ChtBounds

pub stash_size : ChtBounds → ℕ
stash_size empirical = empirical_cht_stash_size
stash_size proven = proven_cht_stash_size

-- The column load factor, in tenths: 1.2 and 2.0.
unfoldable pub column_load_factor : ChtBounds → ℕ
column_load_factor empirical = 12
column_load_factor proven = 20

pub record GigaDoramConfig : Type 0 where
  pub log_address_space_size : ℕ
  pub num_levels : ℕ
  pub log_speed_cache_size : ℕ
  pub log_amp_factor : ℕ
  pub stash_size : ℕ
  pub cht_bounds : ChtBounds

abbrev pub speed_cache_size : GigaDoramConfig → ℕ
speed_cache_size c = 2 ^ c.log_speed_cache_size

abbrev pub fill_time : GigaDoramConfig → ℕ
fill_time c = speed_cache_size c - c.stash_size

abbrev pub amp_factor : GigaDoramConfig → ℕ
amp_factor c = 2 ^ c.log_amp_factor

-- `X::BITS`, `usize::BITS` and `u8::BITS`.
abbrev pub x_bits : ℕ
x_bits = 32

abbrev pub usize_bits : ℕ
usize_bits = 64

abbrev pub u8_bits : ℕ
u8_bits = 8

unfoldable pub validate : GigaDoramConfig → Option (Unit {0})
validate c = do
  ensure (ltb 0 c.num_levels)
  ensure (ltb c.log_address_space_size x_bits)
  ensure (ltb c.log_speed_cache_size usize_bits)
  ensure (ltb c.log_amp_factor usize_bits)
  ensure (ltb c.stash_size (speed_cache_size c))
  ensure (leb c.num_levels u8_bits)
  ensure
      (c.log_address_space_size == c.log_speed_cache_size + (c.num_levels - 1) * c.log_amp_factor)

-- `checked_mul` and `checked_sub` on `usize`.
checked_mul : ℕ → ℕ → Option ℕ
checked_mul a b = if ltb (a * b) (2 ^ usize_bits) then some (a * b) else none

checked_sub : ℕ → ℕ → Option ℕ
checked_sub a b = if leb b a then some (a - b) else none

pub with_stash_size : ℕ → ℕ → ℕ → ℕ → ChtBounds → Option GigaDoramConfig
unfolding checked_mul checked_sub validate
with_stash_size log_address_space_size num_levels log_amp_factor stash cht_bounds = do
  ensure (ltb 0 num_levels)
  x ← checked_mul (num_levels - 1) log_amp_factor
  log_speed_cache_size ← checked_sub log_address_space_size x
  let config : GigaDoramConfig = record {
    log_address_space_size = log_address_space_size;
    num_levels = num_levels;
    log_speed_cache_size = log_speed_cache_size;
    log_amp_factor = log_amp_factor;
    stash_size = stash;
    cht_bounds = cht_bounds;
  }
  validate config
  some config

pub with_cht_bounds : ℕ → ℕ → ℕ → ChtBounds → Option GigaDoramConfig
unfolding stash_size with_stash_size
with_cht_bounds log_address_space_size num_levels log_amp_factor cht_bounds =
    with_stash_size log_address_space_size num_levels log_amp_factor (stash_size cht_bounds)
      cht_bounds

pub new : ℕ → ℕ → ℕ → Option GigaDoramConfig
unfolding with_cht_bounds
new log_address_space_size num_levels log_amp_factor =
    with_cht_bounds log_address_space_size num_levels log_amp_factor empirical

pub with_proven_cht_bounds : ℕ → ℕ → ℕ → Option GigaDoramConfig
unfolding with_cht_bounds
with_proven_cht_bounds log_address_space_size num_levels log_amp_factor =
    with_cht_bounds log_address_space_size num_levels log_amp_factor proven
