-- ===== src/Doram/GigaDoram/Periods.antt =====
-- Arithmetic of the periods of the levels.
use gigadoram_rs.Base.{ℕ, suc, ◌+◌, ◌-◌, ◌*◌, ◌^◌, ◌≤◌, ◌<◌, ◌≡◌, ap, ◌∙◌, arith, false, ltb}
use gigadoram_rs.Base.Powers.{two_pow_pos, two_pow_add}
use Prim.Native.Nat.pow
use native.Mathlib.Nat.{pow-suc, mul-le-mul_right}
use gigadoram_rs.Doram.Config.{GigaDoramConfig, fill_time, speed_cache_size, amp_factor}
use gigadoram_rs.Doram.GigaDoram.State.{num_elements_at}
use gigadoram_rs.Doram.GigaDoram.Invariant.{period}

pub amp_positive : (c : GigaDoramConfig) → 0 < amp_factor c
amp_positive c = two_pow_pos c.log_amp_factor

pub period-suc :
    (c : GigaDoramConfig) (level : ℕ) → period c (suc level) ≡ amp_factor c * period c level
period-suc c level = omega (arith, ap (λ (t : ℕ). t * fill_time c) (pow-suc (amp_factor c) level))

pub period-zero : (c : GigaDoramConfig) → period c 0 ≡ fill_time c
period-zero c = omega (arith, ap (λ (t : ℕ). t * fill_time c) (pow.zero (amp_factor c)))

-- A level below its period stays below the next one's.
pub below_next : (a u w digit : ℕ) → w < u → digit < a → w + digit * u < a * u
below_next a u w digit lt fits =
    let most : suc digit * u ≤ a * u = mul-le-mul_right u fits in omega arith

-- A full level at its period reaches the next one's.
pub full_next : (a u w digit : ℕ) → w ≡ u → 0 < a → digit ≡ a - 1 → w + digit * u ≡ a * u
full_next a u w digit same pos full =
    let whole : suc digit * u ≡ a * u = ap (λ t. t * u) (omega arith) in omega arith

-- The entries of a level for each step of its digit.
abbrev pub capacity : GigaDoramConfig → ℕ → ℕ
capacity c level = 2 ^ (level * c.log_amp_factor + c.log_speed_cache_size)

pub capacity-suc :
    (c : GigaDoramConfig) (level : ℕ) → capacity c (suc level) ≡ amp_factor c * capacity c level
capacity-suc c level =
    let split : capacity c (suc level)
        ≡ 2 ^ (c.log_amp_factor + (level * c.log_amp_factor + c.log_speed_cache_size)) =
      ap (λ (n : ℕ). 2 ^ n) (omega arith) in
    split ∙ two_pow_add c.log_amp_factor (level * c.log_amp_factor + c.log_speed_cache_size)

pub capacity-zero : (c : GigaDoramConfig) → capacity c 0 ≡ speed_cache_size c
capacity-zero c = ap (λ (n : ℕ). 2 ^ n) (omega arith)

pub capacity_positive : (c : GigaDoramConfig) (level : ℕ) → 0 < capacity c level
capacity_positive c level = two_pow_pos (level * c.log_amp_factor + c.log_speed_cache_size)

pub num_elements_at-inner :
    (c : GigaDoramConfig) (level digit : ℕ)
    → suc level < c.num_levels
    → num_elements_at c level digit ≡ digit * capacity c level
unfolding num_elements_at
num_elements_at-inner c level digit lt = ground arith

-- A digit that a rebuild passes is the largest one.
pub full_digit : (a digit : ℕ) → digit < a → ltb digit (a - 1) ≡ false → digit ≡ a - 1
full_digit a digit fits full = ground arith
