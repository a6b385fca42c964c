-- ===== src/Primitives/Tests.antt =====
-- The lemmas of the sharing layer at a sharing with three different components.
use gigadoram_rs.Base.{
  ◌-◌, List, [], ◌∷◌, ℕ, ◌<◌, ◌≡◌, ◌↔◌, refl, arith, true, false, some, ◌==◌, if◌then◌else◌,
}
use gigadoram_rs.Primitives.Rep3.{PartyId, id0, id1, id2, prev, Word, ◌⊕◌, one_at, Shared, Opens}
use gigadoram_rs.Primitives.Rep3.Local.{local_backend}
use gigadoram_rs.Primitives.Types.{from_2_shares, reshare_3_to_2}
use gigadoram_rs.Primitives.Types.Laws.{from_2_shares-reshare_3_to_2}
use gigadoram_rs.Primitives.Utils.{u32, is_zero_many}
use gigadoram_rs.Primitives.Utils.Laws.{correlated}
use gigadoram_rs.Primitives.Utils.Zero.{is_zero_many-Opens}
use gigadoram_rs.Primitives.Permutation.{sample_from_rng}
use gigadoram_rs.Primitives.Permutation.Evaluate.{sample_from_rng-IsValid}
use gigadoram_rs.Primitives.ArrayShuffle.{ArrayShuffler, forward, backward}
use gigadoram_rs.Primitives.ArrayShuffle.Inverse.{Fits, backward-forward}
use gigadoram_rs.Primitives.Value.Alibi.{set_share_bit, set_share_bit-Opens}

abbrev mixed : Shared
mixed id0 = record { a = one_at 3; b = one_at 0 }
mixed id1 = record { a = one_at 1; b = one_at 3 }
mixed id2 = record { a = one_at 0; b = one_at 1 }

abbrev mixed_word : Word
mixed_word = one_at 3 ⊕ one_at 1 ⊕ one_at 0

mixed-Opens : Opens mixed mixed_word
mixed-Opens = record {
  consistent = record { replicated = elim [ id0 ↦ refl | id1 ↦ refl | id2 ↦ refl ] };
  value = refl;
}

abbrev seeds : PartyId → Word
seeds id0 = one_at 5
seeds id1 = one_at 6
seeds id2 = one_at 2

from_2_shares-reshare_3_to_2_example :
    Opens
      (from_2_shares local_backend
        (λ id. reshare_3_to_2 (mixed id) id0 id2 id)
        id0
        id2
        (λ id. (seeds id, seeds (prev id))))
      mixed_word
from_2_shares-reshare_3_to_2_example =
    from_2_shares-reshare_3_to_2 local_backend mixed mixed_word id0 id2 seeds refl mixed-Opens

is_zero_many-Opens_example :
    (b : Word) × Opens (is_zero_many local_backend u32 mixed (λ k. correlated seeds)) b
    × ((b 0 ≡ true) ↔ ((i : ℕ) → i < 32 → mixed_word i ≡ false))
is_zero_many-Opens_example =
    is_zero_many-Opens local_backend (λ k. seeds) u32 mixed mixed_word mixed-Opens

set_share_bit-Opens_example :
    Opens (λ id. set_share_bit (mixed id) 3 id) (λ i. if i == 3 then true else mixed_word i)
set_share_bit-Opens_example = set_share_bit-Opens mixed mixed_word 3 mixed-Opens

abbrev rotations : ArrayShuffler
rotations = record {
  next_shared_perm = elim [
    | id0 ↦ sample_from_rng 4 (λ i. i - 1)
    | id1 ↦ sample_from_rng 4 (λ i. 0)
    | id2 ↦ sample_from_rng 4 (λ i. i)
  ];
}

rotations-Fits : Fits rotations 4
unfolding sample_from_rng
rotations-Fits id0 = (sample_from_rng-IsValid 4 (λ i. i - 1) (λ i. omega arith), refl)
rotations-Fits id1 = (sample_from_rng-IsValid 4 (λ i. 0) (λ i. omega arith), refl)
rotations-Fits id2 = (sample_from_rng-IsValid 4 (λ i. i) (λ i. omega arith), refl)

abbrev letters : List ℕ
letters = 5 ∷ 6 ∷ 7 ∷ 8 ∷ []

backward-forward_example :
    (ys : List ℕ) × (forward rotations letters ≡ some ys) × (backward rotations ys ≡ some letters)
backward-forward_example = backward-forward rotations letters rotations-Fits
