-- ===== src/Primitives/Value/Alibi.antt =====
-- `Record::set_alibi_bit` on the shares of the alibi byte.
use gigadoram_rs.Base.{ℕ, fun_ext, arith, true, ◌==◌, if◌then◌else◌}
use gigadoram_rs.Primitives.Rep3.{
  PartyId, id0, id1, id2, Word, ◌⊕◌, ◌⊗◌, one_at, Share, Shared, Opens, Opens-at,
}

-- Party 0 toggles its first component and party 1 its second; then every party clears the bit that
-- its components had before.
pub set_share_bit : Share → ℕ → PartyId → Share
set_share_bit alibi level party_id = cleared (toggled party_id)
  where
    mask : Word
    mask = one_at level

    toggled : PartyId → Share
    toggled id0 = record alibi { a = alibi.a ⊕ mask }
    toggled id1 = record alibi { b = alibi.b ⊕ mask }
    toggled id2 = alibi

    cleared : Share → Share
    cleared s = record { a = s.a ⊕ (alibi.a ⊗ mask); b = s.b ⊕ (alibi.b ⊗ mask) }

-- Together the parties set the bit `level` of the shared byte, whatever it was, and keep the others.
pub set_share_bit-Opens :
    (s : Shared) (v : Word) (level : ℕ)
    → Opens s v
    → Opens (λ id. set_share_bit (s id) level id) (λ i. if i == level then true else v i)
unfolding set_share_bit
set_share_bit-Opens s v level h = record {
  consistent = record {
    replicated = elim [
      | id0 ↦ fun_ext (λ i. ground (arith, Opens-at i h))
      | id1 ↦ fun_ext (λ i. ground (arith, Opens-at i h))
      | id2 ↦ fun_ext (λ i. ground (arith, Opens-at i h))
    ];
  };
  value = fun_ext (λ i. ground (arith, Opens-at i h));
}
