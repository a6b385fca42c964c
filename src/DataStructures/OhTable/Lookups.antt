-- ===== src/DataStructures/OhTable/Lookups.antt =====
-- What the lookups of a built table lead to.
use gigadoram_rs.Base.{
  some-inj, ℕ, ◌/◌, ◌^◌, ◌<◌, ◌≤◌, ◌≡◌, ◌≢◌, ◌⊎◌, sym, ap, ◌∙◌, arith, List, some, length,
  get_elem?, lt_of_get_elem?, ℕ_discrete,
}
use gigadoram_rs.Primitives.ArrayShuffle.Indices.{shuffle-at}
use gigadoram_rs.Primitives.Utils.{low_u32}
use gigadoram_rs.Primitives.Value.{DoramValue, Record}
use gigadoram_rs.DataStructures.Cht.Build.{Finds, Finds-of_build}
use gigadoram_rs.DataStructures.Cht.Lookup.{DistinctTags}
use gigadoram_rs.DataStructures.Cht.Exact.{Stored, Unstored, lookup_cases}
use gigadoram_rs.DataStructures.OhTable.Params.{OhTableParams, total_size}
use gigadoram_rs.DataStructures.OhTable.Table.{OhTable, compact}
use gigadoram_rs.DataStructures.OhTable.Distinct.{
  Distinct, DistinctLow, compact-DistinctLow, shuffle-DistinctLow,
}
use gigadoram_rs.DataStructures.OhTable.Blocks.{IsBlock-of, IsBlock-at_position}
use gigadoram_rs.DataStructures.OhTable.Chain.{Chain}
use gigadoram_rs.DataStructures.OhTable.Positions.{place_of, length-qs, tag_of_element, element_q}

-- Labels of 32 bits have tags of their own under a key, and none is that of an empty place.
pub record TagsApart {Key : Type 0} (prf : Key → ℕ → ℕ) (key : Key) : Type 0 where
  pub apart :
      (x x' : ℕ) → x < 2 ^ 32 → x' < 2 ^ 32 → x ≢ x' → prf key x' / 2 ^ 32 ≢ prf key x / 2 ^ 32
  pub real : (x : ℕ) → x < 2 ^ 32 → prf key x / 2 ^ 32 ≢ 0

-- The addresses of a build are labels, each of which occurs once.
pub record Labels (xs : List ℕ) : Type 0 where
  pub small : (e x : ℕ) → get_elem? xs e ≡ some x → x < 2 ^ 32
  pub once : Distinct xs

module _ {V Key : Type 0} ⦃d : DoramValue V⦄ (prf : Key → ℕ → ℕ) (p : OhTableParams) (xs : List ℕ)
    (ys : List (Record V)) (key : Key) (t : OhTable V Key) (c : Chain prf p xs ys key t)
    (tags : TagsApart prf key) (labels : Labels xs) (small : total_size p ≤ 2 ^ 32) where
  qs_fit : length c.qs ≤ 2 ^ 32
  qs_fit = omega (arith, length-qs prf p xs ys key t c, small)

  length-blocks : length c.blocks ≡ p.num_elements
  length-blocks =
      let (_, l, _) = shuffle-at c.local (compact 0 c.qs) c.blocks c.local_valid c.blocks_made in
      l ∙ c.local_n

  pub table_finds : Finds p.log_single_col_len c.blocks p.stash_size c.table c.stash
  table_finds =
      Finds-of_build p.stash_size p.log_single_col_len c.blocks c.table_made
        (omega (arith, length-blocks, c.room))

  pub low_apart : DistinctLow c.blocks
  low_apart =
      let (l, _, _) = shuffle-at c.local (compact 0 c.qs) c.blocks c.local_valid c.blocks_made in
      shuffle-DistinctLow c.local (compact 0 c.qs) c.blocks c.local_valid l c.blocks_made
        (compact-DistinctLow 0 c.qs (omega (arith, qs_fit)))

  -- A block belongs to an element.
  pub record Owner (b : ℕ) : Type 0 where
    pub e : ℕ
    pub x : ℕ
    pub inside : e < p.num_elements
    pub at : get_elem? xs e ≡ some x
    pub low : low_u32 b ≡ place_of prf p xs ys key t c e
    pub upper : b / 2 ^ 32 ≡ prf key x / 2 ^ 32

  pub owner : (k b : ℕ) → get_elem? c.blocks k ≡ some b → Owner b
  owner k b at =
      let (j, block) = IsBlock-of c.qs qs_fit c.local c.local_valid c.blocks c.blocks_made k b at in
      let (e, x, inside, there, at_x, is) =
        tag_of_element prf p xs ys key t c j block.tag block.at block.real in
      record {
        e = e;
        x = x;
        inside = inside;
        at = at_x;
        low = block.low ∙ sym there;
        upper = block.upper ∙ ap (λ (n : ℕ). n / 2 ^ 32) is;
      }

  -- Labels with the same tag are the same.
  pub same_label :
      (x x' : ℕ) → x < 2 ^ 32 → x' < 2 ^ 32 → prf key x / 2 ^ 32 ≡ prf key x' / 2 ^ 32 → x ≡ x'
  same_label x x' lt lt' same = elim (ℕ_discrete x x') [
    | yes is ↦ is
    | no other ↦ absurd (tags.apart x x' lt lt' other (sym same))
  ]

  -- The block of an element.
  pub block_of_element :
      (e x : ℕ)
      → get_elem? xs e ≡ some x
      → (k : ℕ) × (b : ℕ) × (get_elem? c.blocks k ≡ some b)
        × (low_u32 b ≡ place_of prf p xs ys key t c e)
        × (b / 2 ^ 32 ≡ prf key x / 2 ^ 32)
  block_of_element e x at =
      let inside : e < p.num_elements = omega (arith, lt_of_get_elem? xs e at, c.xs_length) in
      let tag_at = element_q prf p xs ys key t c e inside x at in
      let (k, b, found, block) =
        IsBlock-at_position c.qs qs_fit c.local c.local_valid c.blocks c.blocks_made
          (place_of prf p xs ys key t c e) (prf key x) tag_at
          (λ zero_tag. tags.real x (labels.small e x at) (ap (λ (n : ℕ). n / 2 ^ 32) zero_tag)) in
      (
        k,
        b,
        found,
        block.low,
        block.upper ∙ ap (λ (n : ℕ). n / 2 ^ 32) (some-inj (sym block.at ∙ tag_at)),
      )

  owners_same :
      (b b' : ℕ) (o : Owner b) (o' : Owner b') → b / 2 ^ 32 ≡ b' / 2 ^ 32 → low_u32 b ≡ low_u32 b'
  owners_same b b' o o' same =
      let is : o.x ≡ o'.x =
        same_label o.x o'.x (labels.small o.e o.x o.at) (labels.small o'.e o'.x o'.at)
          (sym o.upper ∙ same ∙ o'.upper) in
      let one : o.e ≡ o'.e = labels.once o.e o'.e o'.x (o.at ∙ ap some is) o'.at in
      o.low ∙ ap (place_of prf p xs ys key t c) one ∙ sym o'.low

  pub tags_distinct : DistinctTags c.blocks
  tags_distinct k k' b b' at at' same =
      low_apart k k' b b' at at' (owners_same b b' (owner k b at) (owner k' b' at') same)

  -- The lookup of a tag.
  pub lookup_of :
      (q : ℕ) (real : q / 2 ^ 32 ≢ 0)
      → ((k : ℕ) × (b : ℕ) × Stored p.log_single_col_len c.blocks p.stash_size c.table c.stash
            table_finds tags_distinct low_apart q real k b)
        ⊎ Unstored p.log_single_col_len c.blocks p.stash_size c.table c.stash table_finds
            tags_distinct low_apart q real
  lookup_of q real =
      lookup_cases p.log_single_col_len c.blocks p.stash_size c.table c.stash table_finds
        tags_distinct low_apart q real
