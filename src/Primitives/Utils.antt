-- ===== src/Primitives/Utils.antt =====
-- crates/primitives/src/utils.rs: the protocol steps on shares, element by element.
pub mod Laws
pub mod Zero
use gigadoram_rs.Base.{ℕ, ◌+◌, ◌*◌, ◌/◌, ◌%◌, ◌^◌, List, [], ◌∷◌, Option, none, some, if◌then◌else◌}
use gigadoram_rs.Primitives.Rep3.{
  PartyId, prev, same_party, Word, ◌⊕◌, ◌⊗◌, shift_right, bit_at, Share, Shared, Backend,
}
use gigadoram_rs.Primitives.Types.{bit_to_binary_mask}

-- `block as u32`, and the block with its low 32 bits replaced (`low` is a `u32`).
unfoldable pub low_u32 : ℕ → ℕ
low_u32 block = block % 2 ^ 32

unfoldable pub set_low_u32 : ℕ → ℕ → ℕ
set_low_u32 block low = block / 2 ^ 32 * 2 ^ 32 + low

-- The party before the target sends its `b`; only the target learns the value.
pub reveal_to_party : Shared → PartyId → PartyId → Option Word
reveal_to_party share target id =
    if same_party id target
    then some ((share id).a ⊕ (share id).b ⊕ (share (prev target)).b)
    else none

-- The new component is the party's own, and the second one is that of the previous party.
pub ring_recombine : Word → Word → Share
ring_recombine local next = record { a = local; b = next }

-- A bit and the columns that it selects from; the value is of a ring type.
pub record Row (S : Type 0) : Type 0 where
  pub x : S
  pub y : S
  pub alibi : S

module _ (net : Backend) where
  -- `rand` is a party's pair of correlated random elements.
  pub ring_local_and : Share → Share → Word × Word → Word
  ring_local_and lhs rhs rand = net.local_and lhs rhs ⊕ (rand.0 ⊕ rand.1)

  -- One column of `cmux_many_custom`: the local conjunction with the mask, then one reshare.
  pub cmux_column : Shared → Shared → (PartyId → Word × Word) → Shared
  unfolding ring_local_and ring_recombine
  cmux_column found column rand =
      let local =
        λ (id : PartyId). ring_local_and (bit_to_binary_mask (found id)) (column id) (rand id) in
      λ id. ring_recombine (local id) (net.reshare local id)

  unfoldable pub cmux_many_custom : Shared → Row Shared → (PartyId → Row (Word × Word)) → Row Shared
  cmux_many_custom found row rand = record {
    x = cmux_column found row.x (λ id. (rand id).x);
    y = cmux_column found row.y (λ id. (rand id).y);
    alibi = cmux_column found row.alibi (λ id. (rand id).alibi);
  }

  -- One stage: the conjunction of the value with itself shifted down, masked and reshared. The
  -- target type is narrower, which leaves the indices below its width as they are.
  pub fold_zero_stage_many : ℕ → Shared → (PartyId → Word × Word) → Shared
  unfolding ring_recombine
  fold_zero_stage_many shift value rand =
      let local = λ (id : PartyId).
        let high_a = shift_right (value id).a shift in
        let high_b = shift_right (value id).b shift in
        (rand id).0
        ⊕ (rand id).1
        ⊕ ((value id).a ⊗ high_a)
        ⊕ ((value id).b ⊗ high_a)
        ⊕ ((value id).a ⊗ high_b) in
      λ id. ring_recombine (local id) (net.reshare local id)

  -- The stages in order; `rand` holds the randomness of the stage at each shift.
  pub fold_zero : List ℕ → Shared → (ℕ → PartyId → Word × Word) → Shared
  fold_zero [] value rand = value
  fold_zero (shift ∷ shifts) value rand =
      fold_zero shifts (fold_zero_stage_many shift value (rand shift)) rand

-- The ring types of `is_zero_many`, and the shifts of their stages.
pub data RingType : Type 0 where
  u8 u16 u32 u64 u128 : RingType

pub fold_shifts : RingType → List ℕ
fold_shifts u8 = 4 ∷ 2 ∷ 1 ∷ []
fold_shifts u16 = 8 ∷ 4 ∷ 2 ∷ 1 ∷ []
fold_shifts u32 = 16 ∷ 8 ∷ 4 ∷ 2 ∷ 1 ∷ []
fold_shifts u64 = 32 ∷ 16 ∷ 8 ∷ 4 ∷ 2 ∷ 1 ∷ []
fold_shifts u128 = 64 ∷ 32 ∷ 16 ∷ 8 ∷ 4 ∷ 2 ∷ 1 ∷ []

-- A shared bit that says whether the shared word is zero.
pub is_zero_many : Backend → RingType → Shared → (ℕ → PartyId → Word × Word) → Shared
is_zero_many net ring input rand =
    let folded = fold_zero net (fold_shifts ring) (λ id. net.not_share (input id)) rand in
    λ id. record { a = bit_at (folded id).a 0; b = bit_at (folded id).b 0 }
