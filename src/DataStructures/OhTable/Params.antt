-- ===== src/DataStructures/OhTable/Params.antt =====
-- `OHTableParams`. The builder is always party 0, and `none` is a failed assertion.
use gigadoram_rs.Base.{ℕ, ◌+◌, ◌*◌, ◌^◌, Option, leb, ◌>>◌, ensure}

pub record OhTableParams : Type 0 where
  pub num_elements : ℕ
  pub num_dummies : ℕ
  pub stash_size : ℕ
  pub log_single_col_len : ℕ
  pub log_address_space_size : ℕ

abbrev pub total_size : OhTableParams → ℕ
total_size p = p.num_elements + p.num_dummies

abbrev pub cht_full_table_length : OhTableParams → ℕ
cht_full_table_length p = 2 * 2 ^ p.log_single_col_len

unfoldable pub validate : OhTableParams → Option (Unit {0})
validate p = do
  ensure (leb p.stash_size p.num_elements)
  ensure (leb (total_size p) (cht_full_table_length p))
