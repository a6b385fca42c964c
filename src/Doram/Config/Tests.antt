-- ===== src/Doram/Config/Tests.antt =====
-- The constructors and the theorems at concrete configurations.
use gigadoram_rs.Base.{◌≡◌, refl, arith, none, some}
use gigadoram_rs.Doram.Config.{GigaDoramConfig, empirical, new, with_proven_cht_bounds}
use gigadoram_rs.Doram.Config.Laws.{IsValid}

abbrev small : GigaDoramConfig
small = record {
  log_address_space_size = 8;
  num_levels = 3;
  log_speed_cache_size = 4;
  log_amp_factor = 2;
  stash_size = 8;
  cht_bounds = empirical;
}

new_small : new 8 3 2 ≡ some small
unfolding new
new_small = refl

stash_too_large : with_proven_cht_bounds 8 3 2 ≡ none
unfolding with_proven_cht_bounds
stash_too_large = refl

small-IsValid : IsValid small
small-IsValid = omega arith
