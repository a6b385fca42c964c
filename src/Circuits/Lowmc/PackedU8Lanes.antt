-- ===== src/Circuits/Lowmc/PackedU8Lanes.antt =====
-- crates/circuits/src/lowmc/packed_u8_lanes.rs on opened values: up to eight blocks at a time, one in
-- each lane. `encrypt_lane_groups` is modelled for one group; the ands of several groups, which go
-- out in one message, are taken bit by bit.
use gigadoram_rs.Base.{
  ℕ, zero, suc, ◌+◌, ◌*◌, ◌/◌, ◌%◌, ltb, leb, if◌then◌else◌, List, [], ◌∷◌, map, Option, some,
  length, range, ensure, ◌>>◌,
}
use gigadoram_rs.Primitives.Rep3.{Word, ◌⊕◌, ◌⊗◌, zero_word, one_at, shift_right}
use gigadoram_rs.Circuits.Lowmc.{
  Parameters, n_rounds, bits, shift_down, shift_up, sbox_lhs, sbox_rhs, apply_sbox_ands,
  xor_constants, add_round_key,
}
use gigadoram_rs.Circuits.Lowmc.PackedU64.{linear_windows, mpc_linear_layer}

-- `wires` with the blocks, each in the lanes of its mask.
unfoldable pub slice_onto : (ℕ → Word) → List (Word × Word) → ℕ → Word
slice_onto wires [] = wires
slice_onto wires ((block, active_mask) ∷ rest) =
    slice_onto (λ bit. if block bit then wires bit ⊕ active_mask else wires bit) rest

abbrev pub bit_slice : List (Word × Word) → ℕ → Word
bit_slice blocks = slice_onto (λ bit. zero_word) blocks

unfoldable pub precompute_round_keys : (ℕ → Word) → ℕ → ℕ → Word
unfolding slice_onto
precompute_round_keys expanded_key = λ round. bit_slice ((expanded_key round, one_at 0) ∷ [])

-- A wire of the combined keys: `dst ^= src << lane`, from `lane` on.
unfoldable pub combine_from : ℕ → Word → List Word → Word
combine_from lane dst [] = dst
combine_from lane dst (src ∷ rest) = combine_from (suc lane) (dst ⊕ shift_up src lane) rest

abbrev pub combine_round_keys : List (ℕ → ℕ → Word) → ℕ → ℕ → Word
combine_round_keys keys round wire = combine_from 0 zero_word (map (λ key. key round wire) keys)

-- `lane_mask(len)`.
abbrev pub lane_mask : ℕ → Word
lane_mask len lane = ltb lane len

-- A step of the transposition: bits that `distance` separates change places where `mask` is set.
unfoldable pub delta_swap : ℕ → Word → Word → Word
delta_swap distance mask value =
    let swap = (value ⊕ shift_down 64 value distance) ⊗ mask in
    value ⊕ (swap ⊕ shift_up swap distance)

-- 0x00aa00aa00aa00aa, 0x0000cccc0000cccc and 0xf0f0f0f0.
abbrev pub mask_7 : Word
mask_7 = bits 47851476196393130

abbrev pub mask_14 : Word
mask_14 = bits 225176545447116

abbrev pub mask_28 : Word
mask_28 = bits 4042322160

abbrev pub from_le_bytes : (ℕ → Word) → Word
from_le_bytes bytes = λ i. bytes (i / 8) (i % 8)

unfoldable pub transpose : (ℕ → Word) → ℕ → Word
unfolding delta_swap
transpose bytes byte bit =
    delta_swap 28 mask_28 (delta_swap 14 mask_14 (delta_swap 7 mask_7 (from_le_bytes bytes)))
      (8 * byte + bit)

-- The blocks of the lanes, bit by bit.
abbrev pub lanes_of : (ℕ → Word) → ℕ → Word
lanes_of input lane bit = transpose (λ i. input (8 * (bit / 8) + i)) lane (bit % 8)

unfoldable pub four_russians_into : Parameters → ℕ → (ℕ → Word) → ℕ → ℕ → Word
unfolding transpose linear_windows
four_russians_into p round input num_lanes wire =
    let lanes = lanes_of input in
    let multiplied : ℕ → Word =
      λ lane. if ltb lane num_lanes then mpc_linear_layer p round (lanes lane) else lanes lane in
    transpose (λ i. shift_right (multiplied i) (8 * (wire / 8))) (wire % 8)

-- `count` rounds from `round` on.
unfoldable pub lane_rounds : Parameters → (ℕ → ℕ → Word) → ℕ → ℕ → ℕ → (ℕ → Word) → ℕ → Word
unfolding four_russians_into apply_sbox_ands xor_constants add_round_key
lane_rounds p keys len zero round states = states
lane_rounds p keys len (suc count) round states =
    let ands : ℕ → Word = λ k. sbox_lhs states k ⊗ sbox_rhs states k in
    let sboxed = apply_sbox_ands states ands in
    let linear = four_russians_into p round sboxed len in
    lane_rounds p keys len count (suc round)
      (add_round_key (xor_constants p round (lane_mask len) linear) (keys (suc round)))

abbrev pub pack_lanes : (ℕ → Word) → ℕ → List Word
pack_lanes wires len = map (λ lane bit. wires bit lane) (range 0 len)

abbrev pub encrypt_lanes : Parameters → (ℕ → ℕ → Word) → (ℕ → Word) → ℕ → List Word
encrypt_lanes p keys states len =
    pack_lanes (lane_rounds p keys len n_rounds 0 (add_round_key states (keys 0))) len

unfoldable pub encrypt_few_with_repeated_input :
    Parameters → List (ℕ → ℕ → Word) → Word → Option (List Word)
unfolding slice_onto combine_from lane_rounds add_round_key
encrypt_few_with_repeated_input p [] input = some []
encrypt_few_with_repeated_input p (key ∷ keys) input = do
  let num_lanes = length (key ∷ keys)
  ensure (leb num_lanes 8)
  some (
      encrypt_lanes p (combine_round_keys (key ∷ keys))
        (bit_slice ((input, lane_mask num_lanes) ∷ [])) num_lanes)
