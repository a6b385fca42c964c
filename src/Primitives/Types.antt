-- ===== src/Primitives/Types.antt =====
-- crates/primitives/src/types.rs, for one ring element of a column; a column is handled element
-- by element, and the parties' columns have one length.
pub mod Laws
use gigadoram_rs.Base.{ℕ, if◌then◌else◌, ◌||◌}
use gigadoram_rs.Primitives.Rep3.{
  PartyId, id0, id1, id2, next, prev, same_party, Word, ◌⊕◌, zero_word, all_ones, one_at, Share,
  Shared, Backend,
}

-- `promote_public_y`, for one limb; mpc-core's `promote_to_trivial_share` serves the ring types.
pub promote_public_y : PartyId → Word → Share
promote_public_y id0 value = record { a = value; b = zero_word }
promote_public_y id1 value = record { a = zero_word; b = value }
promote_public_y id2 value = record { a = zero_word; b = zero_word }

pub bit_to_binary_mask : Share → Share
bit_to_binary_mask bit = record {
  a = if bit.a 0 then all_ones else zero_word;
  b = if bit.b 0 then all_ones else zero_word;
}

-- The two-party share that the party `id` keeps of its replicated share.
pub reshare_3_to_2 : Share → PartyId → PartyId → PartyId → Word
reshare_3_to_2 share to_1 to_2 id =
    if same_party id to_1
    then share.a ⊕ share.b
    else if same_party id to_2
    then (if same_party to_2 (prev to_1) then share.b else share.a)
    else zero_word

module _ (net : Backend) where
  pub promote_public : PartyId → Word → Share
  promote_public id value = net.promote_to_trivial_share id value

  -- The dummy address `2 ^ log_n`.
  pub dummy_x : PartyId → ℕ → Share
  dummy_x id log_n = promote_public id (one_at log_n)

  -- Each party sends its `b`, and combines what it holds with what it receives.
  pub open_many : Shared → PartyId → Word
  open_many shares id = (shares id).a ⊕ (shares id).b ⊕ net.reshare (λ k. (shares k).b) id

  -- `rand id` is the party's pair of correlated random elements.
  pub from_2_shares : (PartyId → Word) → PartyId → PartyId → (PartyId → Word × Word) → Shared
  from_2_shares local_shares from_1 from_2 rand =
      let local_component = λ (id : PartyId).
        (rand id).0
        ⊕ (rand id).1
        ⊕ (if same_party id from_1 || same_party id from_2 then local_shares id else zero_word) in
      λ id. record { a = local_component id; b = net.reshare local_component id }

  pub input : PartyId → Word → (PartyId → Word × Word) → Shared
  input party_inputting secret rand =
      from_2_shares (λ id. if same_party id party_inputting then secret else zero_word)
        party_inputting (next party_inputting) rand
