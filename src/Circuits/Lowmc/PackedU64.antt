-- ===== src/Circuits/Lowmc/PackedU64.antt =====
-- crates/circuits/src/lowmc/packed_u64.rs on opened values: a block at a time.
use gigadoram_rs.Base.{
  ℕ, zero, suc, ◌+◌, ◌*◌, ltb, ◌||◌, if◌then◌else◌, List, zip_with, Option, some, length, ◌==◌,
  ensure, ◌>>◌,
}
use gigadoram_rs.Primitives.Rep3.{Word, ◌⊕◌, ◌⊗◌, complement, zero_word}
use gigadoram_rs.Circuits.Lowmc.{
  Parameters, n_rounds, n_sboxes, num_windows, bits, shift_down, shift_up, linear_table,
}

abbrev pub either : Word → Word → Word
either x y = λ i. x i || y i

-- The bits at 0, 3, ..., those at 1, 4, ..., those at 2, 5, ..., and all but the first of these.
abbrev pub firsts : Word
firsts = bits 97223533405982418132392744980505203273

abbrev pub seconds : Word
seconds = bits 194447066811964836264785489961010406546

abbrev pub thirds : Word
thirds = bits 48611766702991209066196372490252601636

abbrev pub others : Word
others = bits 243058833514956045330981862451263008182

-- The first `3 * M` bits.
abbrev pub sbox_mask : Word
sbox_mask i = ltb i (3 * n_sboxes)

-- `(x << 1) & 0xb6db... | (x >> 2) & 0x4924...`.
abbrev pub turn : Word → Word
turn x = either (shift_up x 1 ⊗ others) (shift_down 128 x 2 ⊗ firsts)

unfoldable pub mpc_sbox : Word → Word
mpc_sbox state =
    let cab = turn state in
    let bca = turn cab in
    let product = bca ⊗ cab in
    let tmp1 = (state ⊕ product) ⊗ (firsts ⊗ sbox_mask) in
    let tmp2 = ((state ⊕ cab) ⊕ product) ⊗ (seconds ⊗ sbox_mask) in
    let tmp3 = (((state ⊕ bca) ⊕ cab) ⊕ product) ⊗ (thirds ⊗ sbox_mask) in
    either (either (either tmp1 tmp2) tmp3) (state ⊗ complement sbox_mask)

-- `a & WINDOW_MASK`.
abbrev pub window_index : Word → ℕ
window_index a =
    (if a 0 then 1 else 0)
    + ((if a 1 then 2 else 0) + ((if a 2 then 4 else 0) + (if a 3 then 8 else 0)))

-- `count` windows from `window` on.
unfoldable pub linear_windows : Parameters → ℕ → ℕ → ℕ → Word → Word → Word
linear_windows p round zero window a output = output
linear_windows p round (suc count) window a output =
    linear_windows p round count (suc window) (shift_down 128 a 4)
      (output ⊕ linear_table p round window (window_index a))

abbrev pub mpc_linear_layer : Parameters → ℕ → Word → Word
mpc_linear_layer p round state = linear_windows p round num_windows 0 state zero_word

-- `count` rounds from `round` on, of a block under its round keys.
unfoldable pub encrypt_rounds : Parameters → (ℕ → Word) → ℕ → ℕ → Word → Word
unfolding mpc_sbox linear_windows
encrypt_rounds p key zero round state = state
encrypt_rounds p key (suc count) round state =
    encrypt_rounds p key count (suc round)
      ((mpc_linear_layer p round (mpc_sbox state) ⊕ p.round_constants round) ⊕ key (suc round))

abbrev pub encrypt_block : Parameters → (ℕ → Word) → Word → Word
encrypt_block p key input = encrypt_rounds p key n_rounds 0 (input ⊕ key 0)

abbrev pub mpc_encrypt_with_roundkeys :
    Parameters → List Word → List (ℕ → Word) → Option (List Word)
mpc_encrypt_with_roundkeys p inputs keys = do
  ensure (length inputs == length keys)
  some (zip_with (λ input key. encrypt_block p key input) inputs keys)
