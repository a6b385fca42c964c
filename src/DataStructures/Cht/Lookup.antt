-- ===== src/DataStructures/Cht/Lookup.antt =====
-- The lookup in a table that `build` has made.
use gigadoram_rs.Base.{
  ℕ, ◌+◌, ◌/◌, ◌%◌, ◌^◌, ◌≡◌, ◌≢◌, ◌⊎◌, inl, inr, refl, sym, ap, ◌∙◌, arith, List, some, true,
  false, Bool-cases, ==_iff, get_elem?,
}
use gigadoram_rs.Primitives.Utils.{low_u32}
use gigadoram_rs.DataStructures.Cht.{vertex, h0, h1, tags_equal, lookup}
use gigadoram_rs.DataStructures.Cht.Reach.{vertex-inj}
use gigadoram_rs.DataStructures.Cht.Edges.{h0-bound, h1-bound}
use gigadoram_rs.DataStructures.Cht.Build.{Finds}

-- The locations depend on the upper halves only.
pub h0-tag : (l a b : ℕ) → a / 2 ^ 32 ≡ b / 2 ^ 32 → h0 a l ≡ h0 b l
unfolding h0
h0-tag l a b same =
    let upper : a / 2 ^ 64 ≡ b / 2 ^ 64 = omega (arith, same) in ap (λ (n : ℕ). n % 2 ^ l) upper

pub h1-tag : (l a b : ℕ) → a / 2 ^ 32 ≡ b / 2 ^ 32 → h1 a l ≡ h1 b l
unfolding h1
h1-tag l a b same =
    let upper : a / 2 ^ 96 ≡ b / 2 ^ 96 = omega (arith, same) in
    ap (λ (n : ℕ). n % 2 ^ l + 2 ^ l) upper

-- No two blocks of the input have the same tag.
abbrev pub DistinctTags : List ℕ → Type 0
DistinctTags input_array =
    (e e' x x' : ℕ)
    → get_elem? input_array e ≡ some x
    → get_elem? input_array e' ≡ some x'
    → x / 2 ^ 32 ≡ x' / 2 ^ 32
    → e ≡ e'

module _ (l : ℕ) (input_array : List ℕ) (stash_size : ℕ) (table : ℕ → ℕ) (stash : List ℕ)
    (finds : Finds l input_array stash_size table stash) (apart : DistinctTags input_array)
    (key : ℕ) (real : key / 2 ^ 32 ≢ 0) where
  module _ (e x : ℕ) (at : get_elem? input_array e ≡ some x)
      (same : key / 2 ^ 32 ≡ x / 2 ^ 32) where
    -- What has the key's tag is the block, and stands where the block stands.
    pub tag_place : (w : ℕ) → tags_equal key (table w) ≡ true → finds.place e ≡ vertex w
    tag_place w matching =
        let tag = (==_iff (key / 2 ^ 32) (table w / 2 ^ 32)).0 matching in
        elim (finds.origin w) [
          | inl empty ↦ absurd (real (tag ∙ ap (λ (n : ℕ). n / 2 ^ 32) empty))
          | inr (e', x', at', there, stored) ↦
              let one : e ≡ e' =
                apart e e' x x' at at' (sym same ∙ tag ∙ ap (λ (n : ℕ). n / 2 ^ 32) stored) in
              ap finds.place one ∙ there
        ]

    -- It cannot stand at both locations.
    pub one_place :
        tags_equal key (table (h0 key l)) ≡ true → tags_equal key (table (h1 key l)) ≡ true → ⊥
    one_place left right =
        let places = vertex-inj (sym (tag_place (h0 key l) left) ∙ tag_place (h1 key l) right) in
        absurd (omega (arith, places, h0-bound l key, (h1-bound l key).0))

    pub matches : (y : ℕ) → y ≡ x → tags_equal key y ≡ true
    matches y is =
        (==_iff (key / 2 ^ 32) (y / 2 ^ 32)).1 (same ∙ ap (λ (n : ℕ). n / 2 ^ 32) (sym is))

    -- In a table and a stash in which every block of the input is found, a key with the tag of one of them
    -- gets the index of this block and the bit `found`, unless the stash holds that index. The tags
    -- of the input differ, and the tag is not that of an empty place.
    pub lookup-of_build :
        (dummy_index : ℕ)
        → (lookup l table key dummy_index ≡ (low_u32 x, true))
          ⊎ ((k : ℕ) × (get_elem? stash k ≡ some (low_u32 x)))
    unfolding lookup
    lookup-of_build dummy_index = elim (finds.found e x at) [
      | inr (inr in_stash) ↦ inr in_stash
      | inl left ↦
          let stored = ap table (h0-tag l key x same) ∙ left in
          inl (
            at_left stored (matches (table (h0 key l)) stored)
              (Bool-cases (tags_equal key (table (h1 key l)))))
      | inr (inl right) ↦
          let stored = ap table (h1-tag l key x same) ∙ right in
          inl (
            at_right stored (matches (table (h1 key l)) stored)
              (Bool-cases (tags_equal key (table (h0 key l)))))
    ]
      where
        at_left :
            table (h0 key l) ≡ x
            → tags_equal key (table (h0 key l)) ≡ true
            → (tags_equal key (table (h1 key l)) ≡ true)
              ⊎ (tags_equal key (table (h1 key l)) ≡ false)
            → lookup l table key dummy_index ≡ (low_u32 x, true)
        at_left stored found (inl both) = absurd (one_place found both)
        at_left stored found (inr other) = rw (found, other, stored) refl

        at_right :
            table (h1 key l) ≡ x
            → tags_equal key (table (h1 key l)) ≡ true
            → (tags_equal key (table (h0 key l)) ≡ true)
              ⊎ (tags_equal key (table (h0 key l)) ≡ false)
            → lookup l table key dummy_index ≡ (low_u32 x, true)
        at_right stored found (inl both) = absurd (one_place both found)
        at_right stored found (inr other) = rw (found, other, stored) refl

  -- In such a table a key with the tag of no block, nor of an empty place, gets the dummy index, and
  -- no bit `found`. The tags of the input differ.
  pub lookup-absent :
      ((e x : ℕ) → get_elem? input_array e ≡ some x → key / 2 ^ 32 ≢ x / 2 ^ 32)
      → (dummy_index : ℕ) → lookup l table key dummy_index ≡ (dummy_index, false)
  unfolding lookup
  lookup-absent none_of_them dummy_index = rw (no_match (h0 key l), no_match (h1 key l)) refl
    where
      no_match : (w : ℕ) → tags_equal key (table w) ≡ false
      no_match w = elim (Bool-cases (tags_equal key (table w))) [
        | inr other ↦ other
        | inl matching ↦
            let tag = (==_iff (key / 2 ^ 32) (table w / 2 ^ 32)).0 matching in
            elim (finds.origin w) [
              | inl empty ↦ absurd (real (tag ∙ ap (λ (n : ℕ). n / 2 ^ 32) empty))
              | inr (e, x, at, there, stored) ↦
                  absurd (none_of_them e x at (tag ∙ ap (λ (n : ℕ). n / 2 ^ 32) stored))
            ]
      ]
