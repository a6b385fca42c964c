-- ===== src/DataStructures/OhTable/Distinct.antt =====
-- The blocks that the builder inserts carry different indices, so the stash names different entries.
use gigadoram_rs.Base.{
  some-inj, none-some, ℕ, zero, suc, ◌+◌, ◌%◌, ◌^◌, ◌<◌, ◌≤◌, ◌≡◌, ◌≢◌, inl, inr, refl, sym, ap,
  subst, ◌∙◌, arith, List, [], ◌∷◌, some, Bool-cases, if◌then◌else◌, ◌==◌, length, get_elem?,
  lt_of_get_elem?,
}
use gigadoram_rs.Primitives.Permutation.{LocalPermutation, shuffle}
use gigadoram_rs.Primitives.Permutation.Indices.{source, target, source-target}
use gigadoram_rs.Primitives.Permutation.Inverse.{IsValid, last, shuffle_lem}
use gigadoram_rs.Primitives.Utils.{low_u32, set_low_u32}
use gigadoram_rs.Primitives.Utils.Laws.{low_u32-set_low_u32}
use gigadoram_rs.DataStructures.Cht.Build.{Finds}
use gigadoram_rs.DataStructures.OhTable.Table.{compact}

-- No number twice; no low half twice.
abbrev pub Distinct : List ℕ → Type 0
Distinct xs = (k k' y : ℕ) → get_elem? xs k ≡ some y → get_elem? xs k' ≡ some y → k ≡ k'

abbrev pub DistinctLow : List ℕ → Type 0
DistinctLow xs =
    (k k' x x' : ℕ)
    → get_elem? xs k ≡ some x
    → get_elem? xs k' ≡ some x'
    → low_u32 x ≡ low_u32 x'
    → k ≡ k'

own_low : (i q : ℕ) → i < 2 ^ 32 → low_u32 (set_low_u32 q (i % 2 ^ 32)) ≡ i
own_low i q h = (low_u32-set_low_u32 q (i % 2 ^ 32) (omega arith)).0 ∙ omega (arith, h)

-- The indices of the blocks from position `i` on are at least `i`.
compact-low :
    (i : ℕ) (qs : List ℕ)
    → i + length qs ≤ 2 ^ 32
    → (k x : ℕ) → get_elem? (compact i qs) k ≡ some x
    → i ≤ low_u32 x
unfolding compact
compact-low i [] fits k x h = absurd (none-some h)
compact-low i (q ∷ qs) fits k x h = elim (Bool-cases (q == 0)) [
  | inl empty ↦ omega (
    arith,
    compact-low (suc i) qs (omega (arith, fits)) k x (
        subst
          (λ b.
            get_elem?
              (if b then compact (suc i) qs else set_low_u32 q (i % 2 ^ 32) ∷ compact (suc i) qs) k
            ≡ some x)
          empty h),
  )
  | inr full ↦
      kept k
        (subst
          (λ b.
            get_elem?
              (if b then compact (suc i) qs else set_low_u32 q (i % 2 ^ 32) ∷ compact (suc i) qs) k
            ≡ some x)
          full h)
        (λ j g. compact-low (suc i) qs (omega (arith, fits)) j x g)
]
  where
    kept :
        (k : ℕ)
        → get_elem? (set_low_u32 q (i % 2 ^ 32) ∷ compact (suc i) qs) k ≡ some x
        → ((j : ℕ) → get_elem? (compact (suc i) qs) j ≡ some x → suc i ≤ low_u32 x)
        → i ≤ low_u32 x
    kept zero h later = omega (arith, ap low_u32 (some-inj h), own_low i q (omega (arith, fits)))
    kept (suc k) h later = omega (arith, later k h)

pub compact-DistinctLow :
    (i : ℕ) (qs : List ℕ) → i + length qs ≤ 2 ^ 32 → DistinctLow (compact i qs)
unfolding compact
compact-DistinctLow i [] fits = λ k k' x x' h h' same. absurd (none-some h)
compact-DistinctLow i (q ∷ qs) fits = elim (Bool-cases (q == 0)) [
  | inl empty ↦ rw empty (compact-DistinctLow (suc i) qs (omega (arith, fits)))
  | inr full ↦ rw full (with_first (compact-DistinctLow (suc i) qs (omega (arith, fits))))
]
  where
    first : ℕ
    first = set_low_u32 q (i % 2 ^ 32)

    clash :
        (k x y : ℕ)
        → y ≡ set_low_u32 q (i % 2 ^ 32)
        → get_elem? (compact (suc i) qs) k ≡ some x
        → low_u32 x ≢ low_u32 y
    clash k x y made h same = absurd (
        omega (
          arith,
          compact-low (suc i) qs (omega (arith, fits)) k x h,
          same,
          ap low_u32 made,
          own_low i q (omega (arith, fits)),
        ))

    with_first :
        DistinctLow (compact (suc i) qs)
        → DistinctLow (set_low_u32 q (i % 2 ^ 32) ∷ compact (suc i) qs)
    with_first rest zero zero x x' h h' same = refl
    with_first rest zero (suc k') x x' h h' same =
        absurd (clash k' x' x (sym (some-inj h)) h' (sym same))
    with_first rest (suc k) zero x x' h h' same = absurd (clash k x x' (sym (some-inj h')) h same)
    with_first rest (suc k) (suc k') x x' h h' same = ap suc (rest k k' x x' h h' same)

-- A shuffle keeps the blocks apart.
pub shuffle-DistinctLow :
    (p : LocalPermutation) (xs ys : List ℕ)
    → IsValid p
    → length xs ≡ p.n
    → shuffle p xs ≡ some ys
    → DistinctLow xs
    → DistinctLow ys
shuffle-DistinctLow p xs ys v same e apart k k' x x' h h' low =
    let (zs, made, l, g) = shuffle_lem p v xs same in
    let done : zs ≡ ys = some-inj (sym made ∙ e) in
    let moved : (j : ℕ) → get_elem? ys j ≡ get_elem? xs (target p.fy (last p) j) =
      λ j. ap (λ us. get_elem? us j) (sym done) ∙ g j in
    let targets =
      apart (target p.fy (last p) k) (target p.fy (last p) k') x x' (sym (moved k) ∙ h)
        (sym (moved k') ∙ h') low in
    sym (source-target p.fy (last p) k)
    ∙ ap (source p.fy (last p)) targets
    ∙ source-target p.fy (last p) k'

-- The stash of such blocks names different entries.
pub Finds-Distinct :
    (l : ℕ) (xs : List ℕ) (stash_size : ℕ) (table : ℕ → ℕ) (stash : List ℕ)
    → Finds l xs stash_size table stash
    → DistinctLow xs
    → Distinct stash
Finds-Distinct l xs stash_size table stash finds apart k k' y h h' =
    let lt : k < stash_size = omega (arith, lt_of_get_elem? stash k h, finds.size) in
    let lt' : k' < stash_size = omega (arith, lt_of_get_elem? stash k' h', finds.size) in
    let (x, at, stored) = finds.slots k lt in
    let (x', at', stored') = finds.slots k' lt' in
    finds.slots_inj k k' lt lt' (
      apart (finds.slot k) (finds.slot k') x x' at at'
        (some-inj (sym stored ∙ h) ∙ sym (some-inj (sym stored' ∙ h'))))
