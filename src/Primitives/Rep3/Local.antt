-- ===== src/Primitives/Rep3/Local.antt =====
-- A backend that reads the other parties' states: the assumptions on the libraries can be met.
use gigadoram_rs.Base.{◌≡◌, refl, ap, ap₂, subst, fun_ext, arith}
use gigadoram_rs.Primitives.Rep3.{
  PartyId, id0, id1, id2, prev, Word, ◌⊕◌, ◌⊗◌, complement, zero_word, Share, Shared, Opens,
  Opens-at, opened, Backend,
}

abbrev pub trivial_share : PartyId → Word → Share
trivial_share id0 v = record { a = v; b = zero_word }
trivial_share id1 v = record { a = zero_word; b = v }
trivial_share id2 v = record { a = zero_word; b = zero_word }

pub trivial_share-Opens : (v : Word) → Opens (λ id. trivial_share id v) v
trivial_share-Opens v = record {
  consistent = record { replicated = elim [ id0 ↦ refl | id1 ↦ refl | id2 ↦ refl ] };
  value = fun_ext (λ i. ground arith);
}

abbrev pub cross_terms : Share → Share → Word
cross_terms s t = (s.a ⊗ t.a) ⊕ (s.a ⊗ t.b) ⊕ (s.b ⊗ t.a)

pub cross_terms-Opens :
    (s t : Shared) (v w : Word)
    → Opens s v
    → Opens t w
    → cross_terms (s id0) (t id0) ⊕ cross_terms (s id1) (t id1) ⊕ cross_terms (s id2) (t id2)
      ≡ v ⊗ w
cross_terms-Opens s t v w hs ht = fun_ext (λ i. ground (arith, Opens-at i hs, Opens-at i ht))

pub flip : Share → Share
flip s = record { a = complement s.a; b = complement s.b }

pub flip-Opens : (s : Shared) (v : Word) → Opens s v → Opens (λ id. flip (s id)) (complement v)
unfolding flip
flip-Opens s v h = record {
  consistent = record { replicated = λ id. ap complement (h.consistent.replicated id) };
  value = fun_ext (λ i. ground (arith, Opens-at i h));
}

pub dealt_and : Shared → Shared → Shared
dealt_and s t = λ id. trivial_share id (opened s ⊗ opened t)

pub dealt_and-Opens :
    (s t : Shared) (v w : Word) → Opens s v → Opens t w → Opens (dealt_and s t) (v ⊗ w)
unfolding dealt_and
dealt_and-Opens s t v w hs ht =
    subst (λ (x : Word). Opens (dealt_and s t) x) (ap₂ ◌⊗◌ hs.value ht.value)
      (trivial_share-Opens (opened s ⊗ opened t))

abbrev pub local_backend : Backend
local_backend = record {
  promote_to_trivial_share = trivial_share;
  promote_opens = trivial_share-Opens;
  local_and = cross_terms;
  local_and_opens = cross_terms-Opens;
  not_share = flip;
  not_opens = flip-Opens;
  and_vec = dealt_and;
  and_opens = dealt_and-Opens;
  reshare = λ x id. x (prev id);
  reshare_prev = λ x id. refl;
}
