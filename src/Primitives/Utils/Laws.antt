-- ===== src/Primitives/Utils/Laws.antt =====
-- What the steps of utils.rs open to, and the low half of a block.
use gigadoram_rs.Base.{
  ℕ, ◌<◌, ◌^◌, ◌/◌, ◌+◌, ◌≡◌, refl, ap, fun_ext, arith, if◌then◌else◌, none, some,
}
use gigadoram_rs.Primitives.Rep3.{
  PartyId, id0, id1, id2, prev, same_party, Word, ◌⊗◌, shift_right, Shared, Opens, Opens-at,
  Backend,
}
use gigadoram_rs.Primitives.Types.{bit_to_binary_mask}
use gigadoram_rs.Primitives.Types.Laws.{bit_to_binary_mask-Opens}
use gigadoram_rs.Primitives.Utils.{
  low_u32, set_low_u32, reveal_to_party, cmux_column, fold_zero_stage_many,
}

-- A replaced low half is read back, and the upper 96 bits stay.
pub low_u32-set_low_u32 :
    (block low : ℕ)
    → low < 2 ^ 32
    → (low_u32 (set_low_u32 block low) ≡ low) × (set_low_u32 block low / 2 ^ 32 ≡ block / 2 ^ 32)
unfolding low_u32 set_low_u32
low_u32-set_low_u32 block low h = omega arith

-- The target of a reveal learns the shared value, and the other parties learn nothing.
pub reveal_to_party_lem :
    (s : Shared) (v : Word) (target id : PartyId)
    → Opens s v
    → reveal_to_party s target id ≡ (if same_party id target then some v else none)
unfolding reveal_to_party
reveal_to_party_lem s v id0 id0 h = ap some (fun_ext (λ i. ground (arith, Opens-at i h)))
reveal_to_party_lem s v id1 id1 h = ap some (fun_ext (λ i. ground (arith, Opens-at i h)))
reveal_to_party_lem s v id2 id2 h = ap some (fun_ext (λ i. ground (arith, Opens-at i h)))
reveal_to_party_lem s v id0 id1 h = refl
reveal_to_party_lem s v id0 id2 h = refl
reveal_to_party_lem s v id1 id0 h = refl
reveal_to_party_lem s v id1 id2 h = refl
reveal_to_party_lem s v id2 id0 h = refl
reveal_to_party_lem s v id2 id1 h = refl

-- Randomness cancels: each seed is drawn by two neighbours.
abbrev pub correlated : (PartyId → Word) → PartyId → Word × Word
correlated seed id = (seed id, seed (prev id))

module _ (net : Backend) where
  -- A selected column opens to the column where the bit is set, and to zero elsewhere.
  pub cmux_column-Opens :
      (found column : Shared) (f v : Word) (seed : PartyId → Word)
      → Opens found f
      → Opens column v
      → Opens (cmux_column net found column (correlated seed)) ((λ i. f 0) ⊗ v)
  unfolding cmux_column
  cmux_column-Opens found column f v seed hf hv = record {
    consistent = record { replicated = λ id. net.reshare_prev _ id };
    value =
        let both =
          net.local_and_opens (λ id. bit_to_binary_mask (found id)) column (λ i. f 0) v
            (bit_to_binary_mask-Opens found f hf) hv in
        fun_ext (λ i. ground (arith, ap (λ (w : Word). w i) both));
  }

  -- A folding stage opens to the conjunction of the value with itself shifted down.
  pub fold_zero_stage_many-Opens :
      (shift : ℕ) (s : Shared) (v : Word) (seed : PartyId → Word)
      → Opens s v
      → Opens (fold_zero_stage_many net shift s (correlated seed)) (v ⊗ shift_right v shift)
  unfolding fold_zero_stage_many
  fold_zero_stage_many-Opens shift s v seed h = record {
    consistent = record { replicated = λ id. net.reshare_prev _ id };
    value = fun_ext (λ i. ground (arith, Opens-at i h, Opens-at (i + shift) h));
  }
