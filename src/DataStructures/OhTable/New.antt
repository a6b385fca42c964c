-- ===== src/DataStructures/OhTable/New.antt =====
-- A build that succeeds gives a well-formed table.
use gigadoram_rs.Base.{
  some-inj, ℕ, ◌^◌, ◌≤◌, ◌≡◌, refl, sym, ap, subst, ◌∙◌, arith, List, ◌++◌, range, drop, some,
  false, leb, leb→le, ◌==◌, length, replicate, length-replicate, ensure, >>=-eq-some,
  ensure-eq-some,
}
use gigadoram_rs.Primitives.Rep3.{PartyId, id0, id1, id2}
use gigadoram_rs.Primitives.Permutation.{LocalPermutation, shuffle, sample_from_rng}
use gigadoram_rs.Primitives.Permutation.Inverse
use gigadoram_rs.Primitives.Permutation.Inverse.{shuffle_lem}
use gigadoram_rs.Primitives.Permutation.Evaluate.{sample_from_rng-IsValid}
use gigadoram_rs.Primitives.ArrayShuffle.{forward, backward}
use gigadoram_rs.Primitives.Value.{DoramValue, Record, zero_record}
use gigadoram_rs.DataStructures.OhTable.Params.{OhTableParams, total_size, validate}
use gigadoram_rs.DataStructures.OhTable.Table.{
  OhTable, Draws, Coins, new_shuffler, fill_prf_tags, shuffle_builder_order, build_cht,
  shuffle_receiver_order, place_stash, build_table, unbuilt, new,
}
use gigadoram_rs.DataStructures.OhTable.Valid.{IsTable}
use gigadoram_rs.DataStructures.OhTable.Steps.{
  length-shuffle, build_cht-Distinct, place_stash-IsTable,
}

module _ {V Key : Type 0} where
  -- What the steps before the last one leave as it is.
  record Unplaced (p : OhTableParams) (key : Key) (t : OhTable V Key) : Type 0 where
    params : t.params ≡ p
    key_kept : t.key ≡ key
    clear : t.touched ≡ replicate (total_size p) false
    no_query : t.query_count ≡ 0
    xs_stash : length t.stash_xs ≡ p.stash_size
    ys_stash : length t.stash_ys ≡ p.stash_size

  shuffle_builder_order-Unplaced :
      (p : OhTableParams) (key : Key) (t : OhTable V Key) (xs : List ℕ) (ys : List (Record V))
      (draws : PartyId → Draws) {t' : OhTable V Key}
      → Unplaced p key t
      → shuffle_builder_order t xs ys draws ≡ some t'
      → Unplaced p key t' × (length t'.qs_builder_order ≡ total_size t.params)
  unfolding shuffle_builder_order forward
  shuffle_builder_order-Unplaced p key t xs ys draws before h =
      let (qs, shuffled, h1) =
        >>=-eq-some (forward (new_shuffler (total_size t.params) draws) t.qs_builder_order) _ h in
      let (_, _, h2) =
        >>=-eq-some
          (forward (new_shuffler (total_size t.params) draws)
            (xs ++ drop t.params.num_elements t.xs_builder_order))
          _ h1 in
      let (_, _, h3) =
        >>=-eq-some
          (forward (new_shuffler (total_size t.params) draws)
            (ys ++ drop t.params.num_elements t.ys_builder_order))
          _ h2 in
      let (_, _, h4) =
        >>=-eq-some
          (backward (new_shuffler (total_size t.params) draws) (range 0 (total_size t.params))) _
          h3 in
      let (first, _, s1) =
        >>=-eq-some
          (shuffle (sample_from_rng (total_size t.params) (draws id0).draw) t.qs_builder_order) _
          shuffled in
      let (second, _, s2) =
        >>=-eq-some (shuffle (sample_from_rng (total_size t.params) (draws id1).draw) first) _ s1 in
      let (_, l) = length-shuffle (total_size t.params) (draws id2) second s2 in
      subst
        (λ (u : OhTable V Key).
          Unplaced p key u × (length u.qs_builder_order ≡ total_size t.params))
        (some-inj h4)
        (
          record {
            params = before.params;
            key_kept = before.key_kept;
            clear = before.clear;
            no_query = before.no_query;
            xs_stash = before.xs_stash;
            ys_stash = before.ys_stash;
          },
          l,
        )

  shuffle_receiver_order-Unplaced :
      (p : OhTableParams) (key : Key) (t : OhTable V Key) (draws : PartyId → Draws)
      {t' : OhTable V Key} {perm : LocalPermutation}
      → Unplaced p key t
      → shuffle_receiver_order t draws ≡ some (t', perm)
      → Unplaced p key t'
        × Inverse.IsValid perm
        × (length t'.xs_receiver_order ≡ total_size t.params)
        × (length t'.ys_receiver_order ≡ total_size t.params)
  unfolding shuffle_receiver_order
  shuffle_receiver_order-Unplaced p key t draws before h =
      let known = sample_from_rng (total_size t.params) (draws id1).draw in
      let (xs, first, h1) = >>=-eq-some (shuffle known t.xs_builder_order) _ h in
      let (ys, second, h2) = >>=-eq-some (shuffle known t.ys_builder_order) _ h1 in
      let (_, lx) = length-shuffle (total_size t.params) (draws id1) t.xs_builder_order first in
      let (_, ly) = length-shuffle (total_size t.params) (draws id1) t.ys_builder_order second in
      subst
        (λ (u : OhTable V Key × LocalPermutation).
          Unplaced p key u.0
          × Inverse.IsValid u.1
          × (length u.0.xs_receiver_order ≡ total_size t.params)
          × (length u.0.ys_receiver_order ≡ total_size t.params))
        (some-inj h2)
        (
          record {
            params = before.params;
            key_kept = before.key_kept;
            clear = before.clear;
            no_query = before.no_query;
            xs_stash = before.xs_stash;
            ys_stash = before.ys_stash;
          },
          sample_from_rng-IsValid (total_size t.params) (draws id1).draw (draws id1).bound,
          lx,
          ly,
        )

  unbuilt-Unplaced :
      ⦃d : DoramValue V⦄ (prf : Key → ℕ → ℕ) (p : OhTableParams) (xs : List ℕ) (key : Key)
      → Unplaced p key (fill_prf_tags prf (unbuilt prf p key) xs)
  unfolding fill_prf_tags
  unbuilt-Unplaced prf p xs key = record {
    params = refl;
    key_kept = refl;
    clear = refl;
    no_query = refl;
    xs_stash = length-replicate p.stash_size 0;
    ys_stash = length-replicate p.stash_size zero_record;
  }

  pub new-IsTable :
      ⦃d : DoramValue V⦄ (prf : Key → ℕ → ℕ) (p : OhTableParams) (xs : List ℕ)
      (ys : List (Record V)) (key : Key) (coins : Coins) (t : OhTable V Key)
      → total_size p ≤ 2 ^ 32
      → new prf p xs ys key coins ≡ some t
      → IsTable t × (t.params ≡ p) × (t.key ≡ key) × (t.query_count ≡ 0)
  unfolding new build_table validate
  new-IsTable ⦃d⦄ prf p xs ys key coins t small h =
      let (_, checked, h1) = >>=-eq-some (validate p) _ h in
      let (_, _, h2) = >>=-eq-some (ensure (length xs == p.num_elements)) _ h1 in
      let (_, _, h3) = >>=-eq-some (ensure (length ys == p.num_elements)) _ h2 in
      let (_, _, h4) = >>=-eq-some (ensure (length xs == p.num_elements)) _ h3 in
      let (_, _, h5) = >>=-eq-some (ensure (length ys == p.num_elements)) _ h4 in
      let start = fill_prf_tags prf (unbuilt prf p key) xs in
      let (_, fits, _) = >>=-eq-some (ensure (leb p.stash_size p.num_elements)) _ checked in
      let room = leb→le p.stash_size p.num_elements (ensure-eq-some _ fits) in
      let (shuffled, a, h6) =
        >>=-eq-some (shuffle_builder_order start xs ys coins.builder_shuffler) _ h5 in
      let ((with_cht, stash), b, h7) =
        >>=-eq-some (build_cht shuffled coins.builder_local_perm) _ h6 in
      let ((ordered, perm), c, h8) =
        >>=-eq-some (shuffle_receiver_order with_cht coins.receiver_shuffler) _ h7 in
      steps shuffled with_cht ordered stash perm start (unbuilt-Unplaced prf p xs key) a b c h8 room
    where
      steps :
          (shuffled with_cht ordered : OhTable V Key) (stash : List ℕ) (perm : LocalPermutation)
          (start : OhTable V Key)
          → Unplaced p key start
          → shuffle_builder_order start xs ys coins.builder_shuffler ≡ some shuffled
          → build_cht shuffled coins.builder_local_perm ≡ some (with_cht, stash)
          → shuffle_receiver_order with_cht coins.receiver_shuffler ≡ some (ordered, perm)
          → place_stash ordered stash perm ≡ some t
          → p.stash_size ≤ p.num_elements
          → IsTable t × (t.params ≡ p) × (t.key ≡ key) × (t.query_count ≡ 0)
      steps shuffled with_cht ordered stash perm start before a b c placed room =
          let (first, lq) =
            shuffle_builder_order-Unplaced p key start xs ys coins.builder_shuffler before a in
          let stash_fits : shuffled.params.stash_size ≤ shuffled.params.num_elements =
            subst (λ (r : OhTableParams). r.stash_size ≤ r.num_elements) (sym first.params) room in
          let tags_fit : length shuffled.qs_builder_order ≤ 2 ^ 32 =
            omega (arith, lq, ap total_size before.params, small) in
          let (apart, size, (table, made)) =
            build_cht-Distinct shuffled coins.builder_local_perm b tags_fit stash_fits in
          let second : Unplaced p key with_cht = subst (Unplaced p key) (sym made) (record {
            params = first.params;
            key_kept = first.key_kept;
            clear = first.clear;
            no_query = first.no_query;
            xs_stash = first.xs_stash;
            ys_stash = first.ys_stash;
          }) in
          let (third, v, lx, ly) =
            shuffle_receiver_order-Unplaced p key with_cht coins.receiver_shuffler second c in
          let total : total_size with_cht.params ≡ total_size ordered.params =
            ap total_size (second.params ∙ sym third.params) in
          let stash_size : ordered.params.stash_size ≡ p.stash_size =
            ap (λ r. r.stash_size) third.params in
          let (valid, params, key_kept, none_yet) =
            place_stash-IsTable ordered stash perm placed apart
              (size ∙ ap (λ r. r.stash_size) (first.params ∙ sym third.params)) v
              (third.clear ∙ ap (λ r. replicate (total_size r) false) (sym third.params))
              third.no_query (lx ∙ total) (ly ∙ total) (third.xs_stash ∙ sym stash_size)
              (third.ys_stash ∙ sym stash_size)
              (subst (λ (r : OhTableParams). r.stash_size ≤ r.num_elements) (sym third.params)
                room) in
          (valid, params ∙ third.params, key_kept ∙ third.key_kept, none_yet)
