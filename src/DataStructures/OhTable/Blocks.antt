-- ===== src/DataStructures/OhTable/Blocks.antt =====
-- The blocks that the builder inserts: one for each position with a tag.
use gigadoram_rs.Base.{
  some-inj, none-some, ℕ, zero, suc, ◌+◌, ◌/◌, ◌%◌, ◌^◌, ◌≤◌, ◌<◌, ◌≡◌, ◌≢◌, inl, inr, refl, sym,
  ap, subst, ◌∙◌, arith, List, [], ◌∷◌, some, Bool, false, true, Bool-cases, ==_iff, if◌then◌else◌,
  ◌==◌, length, get_elem?, ensure, ensure-eq-some, >>=-eq-some,
}
use gigadoram_rs.Primitives.Permutation.{LocalPermutation, shuffle}
use gigadoram_rs.Primitives.Permutation.Indices.{source, target, target-source}
use gigadoram_rs.Primitives.Permutation.Inverse.{IsValid, last, shuffle_lem}
use gigadoram_rs.Primitives.Utils.{low_u32, set_low_u32}
use gigadoram_rs.Primitives.Utils.Laws.{low_u32-set_low_u32}
use gigadoram_rs.DataStructures.OhTable.Table.{compact}

-- A block that stands for the tag at position `j`.
pub record IsBlock (qs : List ℕ) (j x : ℕ) : Type 0 where
  pub tag : ℕ
  pub at : get_elem? qs j ≡ some tag
  pub real : tag ≢ 0
  pub low : low_u32 x ≡ j
  pub upper : x / 2 ^ 32 ≡ tag / 2 ^ 32

IsBlock-at :
    (qs : List ℕ) (i j q : ℕ)
    → i < 2 ^ 32
    → i ≡ j
    → get_elem? qs j ≡ some q
    → q ≢ 0
    → IsBlock qs j (set_low_u32 q (i % 2 ^ 32))
IsBlock-at qs i j q small same at real =
    let (low, upper) = low_u32-set_low_u32 q (i % 2 ^ 32) (omega arith) in
    record { tag = q; at = at; real = real; low = low ∙ omega (arith, small, same); upper = upper }

is_zero-false : (n : ℕ) → n ≢ 0 → (n == 0) ≡ false
is_zero-false n ne = ground arith

-- The tags from position `i` on, behind others.
module _ (all : List ℕ) where
  Suffix : ℕ → List ℕ → Type 0
  Suffix i qs = (i + length qs ≤ 2 ^ 32) × ((m : ℕ) → get_elem? all (i + m) ≡ get_elem? qs m)

  next_suffix : (i q : ℕ) (qs : List ℕ) → Suffix i (q ∷ qs) → Suffix (suc i) qs
  unfolding Suffix
  next_suffix i q qs (small, same) = (
    omega (arith, small),
    (λ m. ap (get_elem? all) {x = suc i + m} {y = i + suc m} (omega arith) ∙ same (suc m)),
  )

  first-IsBlock :
      (i q : ℕ) (qs : List ℕ)
      → Suffix i (q ∷ qs)
      → q ≢ 0
      → IsBlock all i (set_low_u32 q (i % 2 ^ 32))
  unfolding Suffix
  first-IsBlock i q qs (small, same) real =
      IsBlock-at all i i q (omega (arith, small)) refl
        (ap (get_elem? all) {x = i} {y = i + 0} (omega arith) ∙ same 0) real

  compact-IsBlock :
      (i : ℕ) (qs : List ℕ)
      → Suffix i qs
      → (k x : ℕ) → get_elem? (compact i qs) k ≡ some x
      → (j : ℕ) × IsBlock all j x
  unfolding compact
  compact-IsBlock i [] suffix k x h = absurd (none-some h)
  compact-IsBlock i (q ∷ qs) suffix k x h =
      let later = compact-IsBlock (suc i) qs (next_suffix i q qs suffix) in
      elim (Bool-cases (q == 0)) [
        | inl empty ↦ later k x (subst (λ b. Kept b k x) empty h)
        | inr full ↦ kept later (not_zero full) k x (subst (λ b. Kept b k x) full h)
      ]
    where
      Kept : Bool → ℕ → ℕ → Type 0
      Kept b k x =
          get_elem?
            (if b then compact (suc i) qs else set_low_u32 q (i % 2 ^ 32) ∷ compact (suc i) qs) k
          ≡ some x

      not_zero : (q == 0) ≡ false → q ≢ 0
      not_zero h same = clash h ((==_iff q 0).1 same)
        where
          clash : {b : Bool} → b ≡ false → b ≡ true → ⊥
          clash u v = cc

      kept :
          ((k x : ℕ) → get_elem? (compact (suc i) qs) k ≡ some x → (j : ℕ) × IsBlock all j x)
          → q ≢ 0
          → (k x : ℕ) → get_elem? (set_low_u32 q (i % 2 ^ 32) ∷ compact (suc i) qs) k ≡ some x
          → (j : ℕ) × IsBlock all j x
      kept later real zero x g =
          (i, subst (λ y. IsBlock all i y) (some-inj g) (first-IsBlock i q qs suffix real))
      kept later real (suc k) x g = later k x g

  compact-at :
      (i : ℕ) (qs : List ℕ)
      → Suffix i qs
      → (m q : ℕ) → get_elem? qs m ≡ some q
      → q ≢ 0
      → (k : ℕ) × (x : ℕ) × (get_elem? (compact i qs) k ≡ some x) × IsBlock all (i + m) x
  unfolding compact
  compact-at i [] suffix m q h real = absurd (none-some h)
  compact-at i (q' ∷ qs) suffix zero q h real =
      let same : q' ≡ q = some-inj h in
      let own = first-IsBlock i q' qs suffix (λ e. real (sym same ∙ e)) in
      rw (is_zero-false q' (λ e. real (sym same ∙ e))) (
        0,
        set_low_u32 q' (i % 2 ^ 32),
        refl,
        subst (λ (n : ℕ). IsBlock all n (set_low_u32 q' (i % 2 ^ 32))) {x = i} (omega arith) own,
      )
  compact-at i (q' ∷ qs) suffix (suc m) q h real =
      let (k, x, found, block) = compact-at (suc i) qs (next_suffix i q' qs suffix) m q h real in
      let moved =
        subst (λ (n : ℕ). IsBlock all n x) {x = suc i + m} {y = i + suc m} (omega arith) block in
      elim (Bool-cases (q' == 0)) [
        | inl empty ↦ rw empty (k, x, found, moved)
        | inr full ↦ rw full (suc k, x, found, moved)
      ]

-- The builder's blocks after its shuffle.
module _ (qs : List ℕ) (small : length qs ≤ 2 ^ 32) (p : LocalPermutation) (v : IsValid p)
    (blocks : List ℕ) (shuffled : shuffle p (compact 0 qs) ≡ some blocks) where
  whole : Suffix qs 0 qs
  unfolding Suffix
  whole = (omega (arith, small), (λ m. ap (get_elem? qs) {x = 0 + m} (omega arith)))

  moved : (j : ℕ) → get_elem? blocks j ≡ get_elem? (compact 0 qs) (target p.fy (last p) j)
  unfolding shuffle
  moved j =
      let (_, e, _) = >>=-eq-some (ensure (length (compact 0 qs) == p.n)) _ shuffled in
      let fits = (==_iff (length (compact 0 qs)) p.n).0 (ensure-eq-some _ e) in
      let (zs, made, l, g) = shuffle_lem p v (compact 0 qs) fits in
      let same : zs ≡ blocks = some-inj (sym made ∙ shuffled) in
      ap (λ us. get_elem? us j) (sym same) ∙ g j

  -- Every block stands for the tag at some position.
  pub IsBlock-of : (e x : ℕ) → get_elem? blocks e ≡ some x → (j : ℕ) × IsBlock qs j x
  IsBlock-of e x h = compact-IsBlock qs 0 qs whole (target p.fy (last p) e) x (sym (moved e) ∙ h)

  -- Every tag but zero has a block.
  pub IsBlock-at_position :
      (j q : ℕ)
      → get_elem? qs j ≡ some q
      → q ≢ 0
      → (e : ℕ) × (x : ℕ) × (get_elem? blocks e ≡ some x) × IsBlock qs j x
  IsBlock-at_position j q h real =
      let (k, x, found, block) = compact-at qs 0 qs whole j q h real in
      (
        source p.fy (last p) k,
        x,
        moved (source p.fy (last p) k)
            ∙ ap (get_elem? (compact 0 qs)) (target-source p.fy (last p) k)
            ∙ found,
        subst (λ (n : ℕ). IsBlock qs n x) {x = 0 + j} (omega arith) block,
      )
