-- ===== src/Doram/Config/Laws.antt =====
-- What a validated configuration guarantees.
use gigadoram_rs.Base.{◌+◌, ◌-◌, ◌*◌, ◌≤◌, ◌<◌, ◌≡◌, ◌↔◌, arith, some}
use gigadoram_rs.Doram.Config.{GigaDoramConfig, speed_cache_size, validate}

pub record IsValid (c : GigaDoramConfig) : Type 0 where
  pub has_level : 0 < c.num_levels
  pub labels_fit : c.log_address_space_size < 32
  pub cache_shift : c.log_speed_cache_size < 64
  pub amp_shift : c.log_amp_factor < 64
  pub stash_fits : c.stash_size < speed_cache_size c
  pub alibi_fits : c.num_levels ≤ 8
  pub size_matches :
      c.log_address_space_size ≡ c.log_speed_cache_size + (c.num_levels - 1) * c.log_amp_factor

-- `validate` accepts exactly the configurations that meet all its conditions.
pub validate_iff : (c : GigaDoramConfig) → (validate c ≡ some tt) ↔ IsValid c
unfolding validate
validate_iff c = (λ h. ground arith, λ v. ground arith)
