-- ===== src/DataStructures/OhTable/Built.antt =====
-- The stash and the lookups of a build that succeeds.
use gigadoram_rs.Base.{
  some-inj, ℕ, ◌-◌, ◌/◌, ◌^◌, ◌<◌, ◌≤◌, ◌≡◌, ◌≢◌, inl, inr, sym, ap, ap₂, ◌∙◌, subst, arith, List,
  some, Bool, true, false, get_elem?, get_elem?-of_lt, get_elem?-replicate, lt_of_get_elem?, drop,
}
use gigadoram_rs.Primitives.Permutation.Indices.{source}
use gigadoram_rs.Primitives.Permutation.Inverse
use gigadoram_rs.Primitives.Permutation.Inverse.{last}
use gigadoram_rs.Primitives.Utils.{low_u32}
use gigadoram_rs.Primitives.Value.{DoramValue, Record}
use gigadoram_rs.DataStructures.OhTable.Params.{OhTableParams, total_size}
use gigadoram_rs.DataStructures.OhTable.Table.{OhTable, unbuilt}
use gigadoram_rs.DataStructures.OhTable.Stash.{receiver_indices_lem}
use gigadoram_rs.DataStructures.OhTable.Placed.{Copied, place_indices-Copied}
use gigadoram_rs.DataStructures.OhTable.Entries.{position, position-inj, FindsAt}
use gigadoram_rs.DataStructures.OhTable.Chain.{Chain, empty_stash}
use gigadoram_rs.Primitives.Permutation.Evaluate.{evaluate_at_lem}
use gigadoram_rs.DataStructures.Cht.Exact.{Stored}
use gigadoram_rs.DataStructures.OhTable.Positions.{place_of}
use gigadoram_rs.DataStructures.OhTable.Lookups.{
  TagsApart, Labels, owner, lookup_of, table_finds, low_apart, tags_distinct,
}

module _ {V Key : Type 0} ⦃d : DoramValue V⦄ (prf : Key → ℕ → ℕ) (p : OhTableParams) (xs : List ℕ)
    (ys : List (Record V)) (key : Key) (t : OhTable V Key) (c : Chain prf p xs ys key t)
    (tags : TagsApart prf key) (labels : Labels xs) (small : total_size p ≤ 2 ^ 32) where
  unfoldable pub place : ℕ → ℕ
  place e = place_of prf p xs ys key t c e

  unfoldable pub at_receiver : ℕ → ℕ
  at_receiver j = position c.known j

  -- The table that the steps make.
  abbrev pub made : OhTable V Key
  made = record (unbuilt prf p key) {
    qs_builder_order = c.qs;
    xs_builder_order = c.xs_builder;
    ys_builder_order = c.ys_builder;
    dummy_indices = drop p.num_elements c.indices;
    cht_2shares = c.table;
    xs_receiver_order = c.xs_receiver;
    ys_receiver_order = c.ys_receiver;
    builder_stash_indices = c.stash;
    touched = c.placed.touched;
    stash_xs = c.placed.stash_xs;
    stash_ys = c.placed.stash_ys;
    receiver_shuffle = some c.perm;
  }

  pub copied :
      Copied c.xs_receiver c.ys_receiver 0 c.stash_at (empty_stash prf p xs ys key) c.placed
  copied =
      place_indices-Copied c.xs_receiver c.ys_receiver 0 c.stash_at (empty_stash prf p xs ys key)
        c.placed c.placed_made

  pub perm_fits : Inverse.IsValid c.perm × (c.perm.n ≡ total_size p)
  perm_fits =
      let (v, n, _, _, _) = receiver_indices_lem c.stash c.known c.known_valid c.stash_found in
      (v, n ∙ c.known_n)

  pub perm_position : (j : ℕ) → position c.perm j ≡ at_receiver j
  unfolding at_receiver
  perm_position j =
      let (_, n, fy, _, _) = receiver_indices_lem c.stash c.known c.known_valid c.stash_found in
      ap₂ (λ f (m : ℕ). source f (m - 1) j) fy n

  pub receiver-lt : (j : ℕ) → j < total_size p → at_receiver j < total_size p
  unfolding at_receiver
  receiver-lt j lt =
      let (_, _, _, inside, _, _) =
        evaluate_at_lem c.known c.known_valid j (omega (arith, lt, c.known_n)) in
      omega (arith, inside, c.known_n)

  -- The stash's entries in the receivers' order.
  pub stash_source :
      (k y : ℕ)
      → get_elem? c.stash_at k ≡ some y
      → (j : ℕ) × (get_elem? c.stash k ≡ some j) × (y ≡ at_receiver j)
  unfolding at_receiver
  stash_source k y h =
      let (_, _, _, _, from) = receiver_indices_lem c.stash c.known c.known_valid c.stash_found in
      from k y h

  pub stash_target :
      (k j : ℕ) → get_elem? c.stash k ≡ some j → get_elem? c.stash_at k ≡ some (at_receiver j)
  stash_target k j h =
      let (_, _, _, l, _) = receiver_indices_lem c.stash c.known c.known_valid c.stash_found in
      let (y, at) = get_elem?-of_lt c.stash_at k (omega (arith, lt_of_get_elem? c.stash k h, l)) in
      let (j', at', same) = stash_source k y at in
      at ∙ ap some (same ∙ ap at_receiver (some-inj (sym at' ∙ h)))

  -- A position of the stash is marked, and any other is not.
  pub stash_marked :
      (k j : ℕ)
      → get_elem? c.stash k ≡ some j
      → get_elem? c.placed.touched (at_receiver j) ≡ some true
  stash_marked k j h = copied.marked k (at_receiver j) (stash_target k j h)

  pub others_unmarked :
      (j : ℕ)
      → j < total_size p
      → ((k : ℕ) → get_elem? c.stash k ≢ some j)
      → get_elem? c.placed.touched (at_receiver j) ≡ some false
  unfolding at_receiver
  others_unmarked j lt absent =
      copied.unmarked (at_receiver j) (λ k h.
        let (j', at', same) = stash_source k (at_receiver j) h in
        absent k (at' ∙ ap some (sym (position-inj c.known j j' same))))
      ∙ get_elem?-replicate (total_size p) false (at_receiver j) (receiver-lt j lt)

  -- The stash holds elements.
  pub stash_element :
      (k j : ℕ)
      → get_elem? c.stash k ≡ some j
      → (e : ℕ) × (x : ℕ) × (e < p.num_elements) × (get_elem? xs e ≡ some x) × (j ≡ place e)
  unfolding place
  stash_element k j h =
      let finds = table_finds prf p xs ys key t c tags labels small in
      let (b, at, stored) =
        finds.slots k (omega (arith, lt_of_get_elem? c.stash k h, finds.size)) in
      let o = owner prf p xs ys key t c tags labels small (finds.slot k) b at in
      (o.e, o.x, o.inside, o.at, some-inj (sym h ∙ stored) ∙ o.low)

  -- Where a lookup leads: to the place of an element that is not in the stash.
  pub record Located (q i : ℕ) : Type 0 where
    pub e : ℕ
    pub x : ℕ
    pub inside : e < p.num_elements
    pub at : get_elem? xs e ≡ some x
    pub there : i ≡ place e
    pub tag : q / 2 ^ 32 ≡ prf key x / 2 ^ 32
    pub unstashed : (k : ℕ) → get_elem? c.stash k ≢ some i
    pub found : FindsAt made q i

  pub Stored-Located :
      (q k b : ℕ) (real : q / 2 ^ 32 ≢ 0)
      → Stored p.log_single_col_len c.blocks p.stash_size c.table c.stash
          (table_finds prf p xs ys key t c tags labels small)
          (tags_distinct prf p xs ys key t c tags labels small)
          (low_apart prf p xs ys key t c tags labels small)
          q
          real
          k
          b
      → Located q (low_u32 b)
  unfolding place
  Stored-Located q k b real s =
      let o = owner prf p xs ys key t c tags labels small k b s.at in
      record {
        e = o.e;
        x = o.x;
        inside = o.inside;
        at = o.at;
        there = o.low;
        tag = s.tag ∙ o.upper;
        unstashed = λ k' h.
            let finds = table_finds prf p xs ys key t c tags labels small in
            let lt : k' < p.stash_size = omega (arith, lt_of_get_elem? c.stash k' h, finds.size) in
            let (b', at', stored) = finds.slots k' lt in
            s.unstashed k' lt (
              low_apart prf p xs ys key t c tags labels small (finds.slot k') k b' b at' s.at
                (some-inj (sym stored ∙ h)));
        found = s.found;
      }

  pub located : (q i : ℕ) → q / 2 ^ 32 ≢ 0 → FindsAt made q i → Located q i
  located q i real found = elim (lookup_of prf p xs ys key t c tags labels small q real) [
    | inl (k, b, s) ↦
        let same : low_u32 b ≡ i = ap (λ (r : ℕ × Bool). r.0) (sym (s.found 0) ∙ found 0) in
        subst (λ j. Located q j) same (Stored-Located q k b real s)
    | inr u ↦ absurd (no_bit (ap (λ (r : ℕ × Bool). r.1) (sym (u.absent 0) ∙ found 0)))
  ]
    where
      no_bit : false ≡ true → ⊥
      no_bit h = cc
