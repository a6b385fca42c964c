-- ===== src/Circuits/Lowmc/Tests.antt =====
-- A small choice of tables, two keys and a block.
use gigadoram_rs.Base.{ℕ, ◌+◌, ◌%◌, ◌≡◌, List, [], ◌∷◌, map, some, ◌==◌, ltb, arith}
use gigadoram_rs.Primitives.Rep3.{Word}
use gigadoram_rs.Circuits.Lowmc.{Parameters}
use gigadoram_rs.Circuits.Lowmc.PackedU64.{mpc_sbox, encrypt_block}
use gigadoram_rs.Circuits.Lowmc.PackedU8Lanes.{
  precompute_round_keys, transpose, encrypt_few_with_repeated_input,
}
use gigadoram_rs.Circuits.Lowmc.Transpose.{transpose_lem}
use gigadoram_rs.Circuits.Lowmc.Sbox.{sboxed, mpc_sbox_lem}
use gigadoram_rs.Circuits.Lowmc.Lanes.{encrypt_few_with_repeated_input-encrypt_block}

abbrev few_tables : Parameters
few_tables = record {
  round_constants = λ round bit. (round + bit) % 3 == 0;
  m4r_masks = λ round window bit. (round + window + bit) % 16;
}

abbrev steps : Word
steps bit = bit % 5 == 2

abbrev two_keys : List (ℕ → Word)
two_keys = (λ round bit. (round + bit) % 7 == 0) ∷ (λ round bit. bit == round) ∷ []

abbrev diagonal_bytes : ℕ → Word
diagonal_bytes byte bit = ltb byte bit

encrypt_few_with_repeated_input-encrypt_block_example :
    encrypt_few_with_repeated_input few_tables (map precompute_round_keys two_keys) steps
    ≡ some (map (λ key. encrypt_block few_tables key steps) two_keys)
encrypt_few_with_repeated_input-encrypt_block_example =
    encrypt_few_with_repeated_input-encrypt_block few_tables two_keys steps (omega arith)

transpose_lem_example : transpose diagonal_bytes 2 5 ≡ diagonal_bytes 5 2
transpose_lem_example = transpose_lem diagonal_bytes 2 5 (omega arith) (omega arith)

mpc_sbox_lem_example : mpc_sbox (λ bit. diagonal_bytes bit 4) 7 ≡ sboxed diagonal_bytes 7 4
mpc_sbox_lem_example = mpc_sbox_lem diagonal_bytes 4 7
