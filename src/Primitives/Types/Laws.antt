-- ===== src/Primitives/Types/Laws.antt =====
-- What the shared values of types.rs open to.
use gigadoram_rs.Base.{◌≡◌, refl, fun_ext, arith, false, if◌then◌else◌}
use gigadoram_rs.Primitives.Rep3.{
  PartyId, id0, id1, id2, next, prev, same_party, Word, ◌⊕◌, zero_word, Shared, Opens, Opens-at,
  opened, Backend,
}
use gigadoram_rs.Primitives.Types.{
  promote_public_y, bit_to_binary_mask, reshare_3_to_2, open_many, from_2_shares, input,
}

-- Each party's `promote_public_y` of a value gives a consistent sharing that opens to the value.
pub promote_public_y-Opens : (v : Word) → Opens (λ id. promote_public_y id v) v
unfolding promote_public_y
promote_public_y-Opens v = record {
  consistent = record { replicated = elim [ id0 ↦ refl | id1 ↦ refl | id2 ↦ refl ] };
  value = fun_ext (λ i. ground arith);
}

-- The mask of a shared bit opens to the bit at every index.
pub bit_to_binary_mask-Opens :
    (s : Shared) (v : Word) → Opens s v → Opens (λ id. bit_to_binary_mask (s id)) (λ i. v 0)
unfolding bit_to_binary_mask
bit_to_binary_mask-Opens s v h = record {
  consistent = record { replicated = λ id. rw (h.consistent.replicated id) refl };
  value = fun_ext (λ i. ground (arith, Opens-at 0 h));
}

-- Two different parties keep two components that combine to the shared value, and the third party
-- keeps nothing, in whichever order the two are named.
pub reshare_3_to_2_lem :
    (s : Shared) (v : Word) (p q : PartyId)
    → same_party p q ≡ false
    → Opens s v
    → (reshare_3_to_2 (s id0) p q id0
          ⊕ reshare_3_to_2 (s id1) p q id1
          ⊕ reshare_3_to_2 (s id2) p q id2
        ≡ v)
unfolding reshare_3_to_2
reshare_3_to_2_lem s v id0 id0 apart h = cc
reshare_3_to_2_lem s v id1 id1 apart h = cc
reshare_3_to_2_lem s v id2 id2 apart h = cc
reshare_3_to_2_lem s v p q apart h = fun_ext (λ i. ground (arith, Opens-at i h))

module _ (net : Backend) where
  -- Every party learns the shared value.
  pub open_many-Opens : (s : Shared) (v : Word) (id : PartyId) → Opens s v → open_many net s id ≡ v
  unfolding open_many
  open_many-Opens s v id0 h =
      rw (net.reshare_prev (λ k. (s k).b) id0) (fun_ext (λ i. ground (arith, Opens-at i h)))
  open_many-Opens s v id1 h =
      rw (net.reshare_prev (λ k. (s k).b) id1) (fun_ext (λ i. ground (arith, Opens-at i h)))
  open_many-Opens s v id2 h =
      rw (net.reshare_prev (λ k. (s k).b) id2) (fun_ext (λ i. ground (arith, Opens-at i h)))

  -- With the pairwise correlated randomness of the protocol, the two-party shares of two different
  -- parties become a consistent three-party sharing of their combination.
  pub from_2_shares-Opens :
      (xs : PartyId → Word) (p q : PartyId) (seed : PartyId → Word)
      → same_party p q ≡ false
      → Opens (from_2_shares net xs p q (λ id. (seed id, seed (prev id)))) (xs p ⊕ xs q)
  unfolding from_2_shares
  from_2_shares-Opens xs p q seed apart = record {
    consistent = record { replicated = λ id. net.reshare_prev _ id };
    value = combined p q apart;
  }
    where
      combined :
          (p q : PartyId)
          → same_party p q ≡ false
          → opened (from_2_shares net xs p q (λ id. (seed id, seed (prev id)))) ≡ xs p ⊕ xs q
      combined id0 id0 apart = cc
      combined id1 id1 apart = cc
      combined id2 id2 apart = cc
      combined id0 id1 apart = fun_ext (λ i. ground arith)
      combined id0 id2 apart = fun_ext (λ i. ground arith)
      combined id1 id0 apart = fun_ext (λ i. ground arith)
      combined id1 id2 apart = fun_ext (λ i. ground arith)
      combined id2 id0 apart = fun_ext (λ i. ground arith)
      combined id2 id1 apart = fun_ext (λ i. ground arith)

  -- `reshare_3_to_2` followed by `from_2_shares` keeps the shared value.
  pub from_2_shares-reshare_3_to_2 :
      (s : Shared) (v : Word) (p q : PartyId) (seed : PartyId → Word)
      → same_party p q ≡ false
      → Opens s v
      → Opens
          (from_2_shares net
            (λ id. reshare_3_to_2 (s id) p q id)
            p
            q
            (λ id. (seed id, seed (prev id))))
          v
  unfolding reshare_3_to_2
  from_2_shares-reshare_3_to_2 s v p q seed apart h =
      let fresh = from_2_shares-Opens (λ id. reshare_3_to_2 (s id) p q id) p q seed apart in
      record { consistent = fresh.consistent; value = rw fresh.value (kept p q apart) }
    where
      kept :
          (p q : PartyId)
          → same_party p q ≡ false
          → reshare_3_to_2 (s p) p q p ⊕ reshare_3_to_2 (s q) p q q ≡ v
      kept id0 id0 apart = cc
      kept id1 id1 apart = cc
      kept id2 id2 apart = cc
      kept id0 id1 apart = fun_ext (λ i. ground (arith, Opens-at i h))
      kept id0 id2 apart = fun_ext (λ i. ground (arith, Opens-at i h))
      kept id1 id0 apart = fun_ext (λ i. ground (arith, Opens-at i h))
      kept id1 id2 apart = fun_ext (λ i. ground (arith, Opens-at i h))
      kept id2 id0 apart = fun_ext (λ i. ground (arith, Opens-at i h))
      kept id2 id1 apart = fun_ext (λ i. ground (arith, Opens-at i h))

  -- A secret that one party inputs becomes a consistent sharing of the secret.
  pub input-Opens :
      (p : PartyId) (secret : Word) (seed : PartyId → Word)
      → Opens (input net p secret (λ id. (seed id, seed (prev id)))) secret
  unfolding input
  input-Opens p secret seed =
      let fresh =
        from_2_shares-Opens (λ id. if same_party id p then secret else zero_word) p (next p) seed
          (apart p) in
      record { consistent = fresh.consistent; value = rw fresh.value (alone p) }
    where
      apart : (p : PartyId) → same_party p (next p) ≡ false
      apart = elim [ id0 ↦ refl | id1 ↦ refl | id2 ↦ refl ]

      given : PartyId → PartyId → Word
      given p id = if same_party id p then secret else zero_word

      alone : (p : PartyId) → given p p ⊕ given p (next p) ≡ secret
      alone id0 = fun_ext (λ i. ground arith)
      alone id1 = fun_ext (λ i. ground arith)
      alone id2 = fun_ext (λ i. ground arith)
