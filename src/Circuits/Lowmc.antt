-- ===== src/Circuits/Lowmc.antt =====
-- crates/circuits/src/lowmc/common.rs on opened values. A block is a word of 128 bits; wires are
-- the 128 words of a bit-sliced state, each with a bit for each lane. The tables of parameters.rs are
-- the argument `Parameters`.
pub mod PackedU64
pub mod PackedU8Lanes
pub mod Transpose
pub mod Sbox
pub mod Lanes
mod Tests
use gigadoram_rs.Base.{
  ℕ, zero, suc, ◌+◌, ◌-◌, ◌*◌, ◌/◌, ◌%◌, ◌^◌, Bool, true, false, ltb, ◌==◌, if◌then◌else◌,
}
use gigadoram_rs.Primitives.Rep3.{Word, differ, ◌⊕◌, ◌⊗◌}

abbrev pub n_rounds : ℕ
n_rounds = 9

abbrev pub n_sboxes : ℕ
n_sboxes = 42

abbrev pub num_windows : ℕ
num_windows = 32

pub record Parameters : Type 0 where
  pub round_constants : ℕ → Word
  pub m4r_masks : ℕ → ℕ → ℕ → ℕ

-- `(n >> k) & 1 == 1`.
abbrev pub bits : ℕ → Word
bits n k = (n / 2 ^ k) % 2 == 1

-- `x >> k` at `width` bits, and `x << k`.
abbrev pub shift_down : ℕ → Word → ℕ → Word
shift_down width x k = λ i. if ltb (i + k) width then x (i + k) else false

abbrev pub shift_up : Word → ℕ → Word
shift_up x k = λ i. if ltb i k then false else x (i - k)

abbrev pub zeros_from : ℕ → ℕ → ℕ
zeros_from zero n = 0
zeros_from (suc fuel) n = let rest = zeros_from fuel (n / 2) in if n % 2 == 0 then suc rest else 0

-- `n` has fewer than `n` trailing zeros.
abbrev pub trailing_zeros : ℕ → ℕ
trailing_zeros n = zeros_from n n

unfoldable pub m4r_lut : Word → ℕ → Bool
m4r_lut input zero = false
m4r_lut input (suc i) = differ (m4r_lut input i) (input (trailing_zeros (suc i)))

-- `LINEAR_TABLES[round][window][input]`.
unfoldable pub linear_table : Parameters → ℕ → ℕ → ℕ → Word
unfolding m4r_lut
linear_table p round window input = λ bit. m4r_lut (bits input) (p.m4r_masks round window bit)

-- One of three values.
abbrev pub choose : {A : Type 0} → ℕ → A → A → A → A
choose zero a b c = a
choose (suc zero) a b c = b
choose n a b c = c

abbrev pub sbox_lhs : (ℕ → Word) → ℕ → Word
sbox_lhs input k = let i = 3 * (k / 3) in choose (k % 3) (input (i + 1)) (input (i + 2)) (input i)

abbrev pub sbox_rhs : (ℕ → Word) → ℕ → Word
sbox_rhs input k = let i = 3 * (k / 3) in choose (k % 3) (input (i + 2)) (input i) (input (i + 1))

unfoldable pub apply_sbox_ands : (ℕ → Word) → (ℕ → Word) → ℕ → Word
apply_sbox_ands input ands k =
    let i = 3 * (k / 3) in
    let a = input i in
    let b = input (i + 1) in
    let c = input (i + 2) in
    if ltb k (3 * n_sboxes)
    then choose (k % 3) (ands i ⊕ a) ((ands (i + 1) ⊕ a) ⊕ b) (((ands (i + 2) ⊕ a) ⊕ b) ⊕ c)
    else input k

unfoldable pub xor_constants : Parameters → ℕ → Word → (ℕ → Word) → ℕ → Word
xor_constants p round active_mask state bit =
    if p.round_constants round bit then state bit ⊕ active_mask else state bit

unfoldable pub add_round_key : (ℕ → Word) → (ℕ → Word) → ℕ → Word
add_round_key state round_key bit = state bit ⊕ round_key bit
