-- ===== src/DataStructures/Cht/Exact.antt =====
-- A lookup finds exactly the blocks that stand in the table, and no block of the stash.
use gigadoram_rs.Base.{
  some-inj, ℕ, ◌/◌, ◌^◌, ◌<◌, ◌≡◌, ◌≢◌, ◌⊎◌, inl, inr, refl, sym, ap, ◌∙◌, arith, List, some, Bool,
  true, false, Bool-cases, ==_iff, get_elem?, lt_of_get_elem?,
}
use gigadoram_rs.Primitives.Utils.{low_u32}
use gigadoram_rs.DataStructures.Cht.{vertex, h0, h1, tags_equal, lookup}
use gigadoram_rs.DataStructures.Cht.Build.{Finds}
use gigadoram_rs.DataStructures.Cht.Lookup.{DistinctTags, h0-tag, h1-tag, one_place, matches}

module _ (l : ℕ) (input_array : List ℕ) (stash_size : ℕ) (table : ℕ → ℕ) (stash : List ℕ)
    (finds : Finds l input_array stash_size table stash) (apart : DistinctTags input_array)
    (low_apart : (e e' x x' : ℕ)
      → get_elem? input_array e ≡ some x
      → get_elem? input_array e' ≡ some x'
      → low_u32 x ≡ low_u32 x'
      → e ≡ e')
    (key : ℕ) (real : key / 2 ^ 32 ≢ 0) where
  -- A block with the key's tag that stands in the table, and not in the stash.
  pub record Stored (e x : ℕ) : Type 0 where
    pub at : get_elem? input_array e ≡ some x
    pub tag : key / 2 ^ 32 ≡ x / 2 ^ 32
    pub unstashed : (k : ℕ) → k < stash_size → finds.slot k ≢ e
    pub found : (dummy_index : ℕ) → lookup l table key dummy_index ≡ (low_u32 x, true)

  -- No block with the key's tag stands in the table; one in the input stands in the stash.
  pub record Unstored : Type 0 where
    pub absent : (dummy_index : ℕ) → lookup l table key dummy_index ≡ (dummy_index, false)
    pub in_stash :
        (e x : ℕ)
        → get_elem? input_array e ≡ some x
        → key / 2 ^ 32 ≡ x / 2 ^ 32
        → (k : ℕ) × (k < stash_size) × (finds.slot k ≡ e) × (get_elem? stash k ≡ some (low_u32 x))

  -- What stands where a tag matches.
  matching :
      (w : ℕ)
      → tags_equal key (table w) ≡ true
      → (e : ℕ) × (x : ℕ) × (get_elem? input_array e ≡ some x)
        × (finds.place e ≡ vertex w)
        × (table w ≡ x)
        × (key / 2 ^ 32 ≡ x / 2 ^ 32)
  matching w match =
      let tag = (==_iff (key / 2 ^ 32) (table w / 2 ^ 32)).0 match in
      elim (finds.origin w) [
        | inl empty ↦ absurd (real (tag ∙ ap (λ (n : ℕ). n / 2 ^ 32) empty))
        | inr (e, x, at, there, stored) ↦
            (e, x, at, there, stored, tag ∙ ap (λ (n : ℕ). n / 2 ^ 32) stored)
      ]

  not_in_stash :
      (w e x : ℕ)
      → finds.place e ≡ vertex w
      → table w ≡ x
      → key / 2 ^ 32 ≡ x / 2 ^ 32
      → (k : ℕ) → k < stash_size
      → finds.slot k ≢ e
  not_in_stash w e x there stored tag k lt same =
      let empty = finds.slot_vertex k w lt (ap finds.place same ∙ there) in
      real (tag ∙ ap (λ (n : ℕ). n / 2 ^ 32) (sym stored ∙ empty))

  at_h0 : tags_equal key (table (h0 key l)) ≡ true → (e : ℕ) × (x : ℕ) × Stored e x
  unfolding lookup
  at_h0 match =
      let (e, x, at, there, stored, tag) = matching (h0 key l) match in
      (
        e,
        x,
        record {
          at = at;
          tag = tag;
          unstashed = not_in_stash (h0 key l) e x there stored tag;
          found = λ dummy_index. elim (Bool-cases (tags_equal key (table (h1 key l)))) [
            | inl both ↦ absurd (
                one_place l input_array stash_size table stash finds apart key real e x at tag match
                  both)
            | inr other ↦ rw (match, other, stored) refl
          ];
        },
      )

  at_h1 :
      tags_equal key (table (h0 key l)) ≡ false
      → tags_equal key (table (h1 key l)) ≡ true
      → (e : ℕ) × (x : ℕ) × Stored e x
  unfolding lookup
  at_h1 other match =
      let (e, x, at, there, stored, tag) = matching (h1 key l) match in
      (
        e,
        x,
        record {
          at = at;
          tag = tag;
          unstashed = not_in_stash (h1 key l) e x there stored tag;
          found = λ dummy_index. rw (match, other, stored) refl;
        },
      )

  nowhere :
      tags_equal key (table (h0 key l)) ≡ false
      → tags_equal key (table (h1 key l)) ≡ false
      → Unstored
  unfolding lookup
  nowhere left right = record {
    absent = λ dummy_index. rw (left, right) refl;
    in_stash = λ e x at tag. elim (finds.found e x at) [
      | inl here ↦
          absurd (clash left (at_place e x at tag (h0 x l) (h0 key l) (h0-tag l key x tag) here))
      | inr (inl here) ↦
          absurd (clash right (at_place e x at tag (h1 x l) (h1 key l) (h1-tag l key x tag) here))
      | inr (inr (k, stored)) ↦
          let lt : k < stash_size = omega (arith, lt_of_get_elem? stash k stored, finds.size) in
          let (x', at', stored') = finds.slots k lt in
          (k, lt, low_apart (finds.slot k) e x' x at' at (some-inj (sym stored' ∙ stored)), stored)
    ];
  }
    where
      clash : {b : Bool} → b ≡ false → b ≡ true → ⊥
      clash h h' = cc

      at_place :
          (e x : ℕ)
          → get_elem? input_array e ≡ some x
          → key / 2 ^ 32 ≡ x / 2 ^ 32
          → (w w' : ℕ) → w' ≡ w
          → table w ≡ x
          → tags_equal key (table w') ≡ true
      at_place e x at tag w w' same here =
          matches l input_array stash_size table stash finds apart key real e x at tag (table w')
            (ap table same ∙ here)

  -- Every key with a tag finds the block with the tag that stands in the table, if there is one.
  pub lookup_cases : ((e : ℕ) × (x : ℕ) × Stored e x) ⊎ Unstored
  lookup_cases = elim (Bool-cases (tags_equal key (table (h0 key l)))) [
    | inl left ↦ inl (at_h0 left)
    | inr not_left ↦ elim (Bool-cases (tags_equal key (table (h1 key l)))) [
      | inl right ↦ inl (at_h1 not_left right)
      | inr not_right ↦ inr (nowhere not_left not_right)
    ]
  ]
