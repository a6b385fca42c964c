-- ===== src/DataStructures/OhTable/Chain.antt =====
-- What the steps of a build that succeeds have computed.
use gigadoram_rs.Base.{
  some-inj, ℕ, ◌^◌, ◌≤◌, ◌≡◌, refl, sym, ap, subst, ◌∙◌, List, ◌++◌, map, some, false, range, drop,
  leb, leb→le, ◌==◌, ==_iff, length, replicate, ensure, ensure-eq-some, >>=-eq-some,
}
use gigadoram_rs.Primitives.Rep3.{PartyId, id1}
use gigadoram_rs.Primitives.Permutation.{LocalPermutation, shuffle, sample_from_rng}
use gigadoram_rs.Primitives.Permutation.Inverse
use gigadoram_rs.Primitives.Permutation.Evaluate.{sample_from_rng-IsValid}
use gigadoram_rs.Primitives.ArrayShuffle.{ArrayShuffler, forward, backward}
use gigadoram_rs.Primitives.ArrayShuffle.Inverse.{Fits}
use gigadoram_rs.Primitives.Value.{DoramValue, Record, zero_record}
use gigadoram_rs.DataStructures.Cht.{build}
use gigadoram_rs.DataStructures.OhTable.Params.{OhTableParams, total_size, validate}
use gigadoram_rs.DataStructures.OhTable.Table.{
  OhTable, Draws, Coins, Stash, compact, new_shuffler, fill_prf_tags, shuffle_builder_order,
  build_cht, shuffle_receiver_order, receiver_indices, place_indices, place_stash, build_table,
  unbuilt, new,
}

new_shuffler-Fits : (n : ℕ) (draws : PartyId → Draws) → Fits (new_shuffler n draws) n
unfolding sample_from_rng
new_shuffler-Fits n draws id = (sample_from_rng-IsValid n (draws id).draw (draws id).bound, refl)

length_n : (n : ℕ) (draws : Draws) → (sample_from_rng n draws.draw).n ≡ n
unfolding sample_from_rng
length_n n draws = refl

-- The four steps, on any table.
module _ {V Key : Type 0} (t : OhTable V Key) where
  record Shuffled (xs : List ℕ) (ys : List (Record V)) (u : OhTable V Key) : Type 0 where
    shuffler : ArrayShuffler
    fits : Fits shuffler (total_size t.params)
    qs : List ℕ
    xs_builder : List ℕ
    ys_builder : List (Record V)
    indices : List ℕ
    qs_made : forward shuffler t.qs_builder_order ≡ some qs
    xs_made :
        forward shuffler (xs ++ drop t.params.num_elements t.xs_builder_order) ≡ some xs_builder
    ys_made :
        forward shuffler (ys ++ drop t.params.num_elements t.ys_builder_order) ≡ some ys_builder
    indices_made : backward shuffler (range 0 (total_size t.params)) ≡ some indices
    result :
        record t {
          qs_builder_order = qs;
          xs_builder_order = xs_builder;
          ys_builder_order = ys_builder;
          dummy_indices = drop t.params.num_elements indices;
        }
        ≡ u

  shuffle_builder_order-Shuffled :
      (xs : List ℕ) (ys : List (Record V)) (draws : PartyId → Draws) (u : OhTable V Key)
      → shuffle_builder_order t xs ys draws ≡ some u
      → Shuffled xs ys u
  unfolding shuffle_builder_order
  shuffle_builder_order-Shuffled xs ys draws u h =
      let s = new_shuffler (total_size t.params) draws in
      let n = t.params.num_elements in
      let (qs, e1, h1) = >>=-eq-some (forward s t.qs_builder_order) _ h in
      let (xs_builder, e2, h2) = >>=-eq-some (forward s (xs ++ drop n t.xs_builder_order)) _ h1 in
      let (ys_builder, e3, h3) = >>=-eq-some (forward s (ys ++ drop n t.ys_builder_order)) _ h2 in
      let (indices, e4, h4) = >>=-eq-some (backward s (range 0 (total_size t.params))) _ h3 in
      record {
        shuffler = s;
        fits = new_shuffler-Fits (total_size t.params) draws;
        qs = qs;
        xs_builder = xs_builder;
        ys_builder = ys_builder;
        indices = indices;
        qs_made = e1;
        xs_made = e2;
        ys_made = e3;
        indices_made = e4;
        result = some-inj h4;
      }

  record Inserted (u : OhTable V Key) (stash : List ℕ) : Type 0 where
    local : LocalPermutation
    local_valid : Inverse.IsValid local
    local_n : local.n ≡ t.params.num_elements
    blocks : List ℕ
    blocks_made : shuffle local (compact 0 t.qs_builder_order) ≡ some blocks
    table : ℕ → ℕ
    table_made : build t.params.stash_size t.params.log_single_col_len blocks ≡ some (table, stash)
    result : record t { cht_2shares = table } ≡ u

  build_cht-Inserted :
      (draws : Draws) (u : OhTable V Key) (stash : List ℕ)
      → build_cht t draws ≡ some (u, stash)
      → Inserted u stash
  unfolding build_cht
  build_cht-Inserted draws u stash h =
      let local = sample_from_rng t.params.num_elements draws.draw in
      let (blocks, e1, h1) = >>=-eq-some (shuffle local (compact 0 t.qs_builder_order)) _ h in
      let ((table, found), e2, h2) =
        >>=-eq-some (build t.params.stash_size t.params.log_single_col_len blocks) _ h1 in
      let pair = some-inj h2 in
      let same : found ≡ stash = ap (λ r. r.1) pair in
      record {
        local = local;
        local_valid = sample_from_rng-IsValid t.params.num_elements draws.draw draws.bound;
        local_n = length_n t.params.num_elements draws;
        blocks = blocks;
        blocks_made = e1;
        table = table;
        table_made = e2 ∙ ap (λ st. some (table, st)) same;
        result = ap (λ r. r.0) pair;
      }

  record Ordered (u : OhTable V Key) (known : LocalPermutation) : Type 0 where
    known_valid : Inverse.IsValid known
    known_n : known.n ≡ total_size t.params
    xs_receiver : List ℕ
    ys_receiver : List (Record V)
    xs_ordered : shuffle known t.xs_builder_order ≡ some xs_receiver
    ys_ordered : shuffle known t.ys_builder_order ≡ some ys_receiver
    result : record t { xs_receiver_order = xs_receiver; ys_receiver_order = ys_receiver } ≡ u

  shuffle_receiver_order-Ordered :
      (draws : PartyId → Draws) (u : OhTable V Key) (known : LocalPermutation)
      → shuffle_receiver_order t draws ≡ some (u, known)
      → Ordered u known
  unfolding shuffle_receiver_order
  shuffle_receiver_order-Ordered draws u known h =
      let perm = (new_shuffler (total_size t.params) draws).next_shared_perm id1 in
      let (xs, e1, h1) = >>=-eq-some (shuffle perm t.xs_builder_order) _ h in
      let (ys, e2, h2) = >>=-eq-some (shuffle perm t.ys_builder_order) _ h1 in
      let pair = some-inj h2 in
      let same : perm ≡ known = ap (λ r. r.1) pair in
      let (v, n) = new_shuffler-Fits (total_size t.params) draws id1 in
      record {
        known_valid = subst Inverse.IsValid same v;
        known_n = ap (λ r. r.n) (sym same) ∙ n;
        xs_receiver = xs;
        ys_receiver = ys;
        xs_ordered = ap (λ r. shuffle r t.xs_builder_order) (sym same) ∙ e1;
        ys_ordered = ap (λ r. shuffle r t.ys_builder_order) (sym same) ∙ e2;
        result = ap (λ r. r.0) pair;
      }

  record Placed (stash : List ℕ) (known : LocalPermutation) (u : OhTable V Key) : Type 0 where
    stash_at : List ℕ
    perm : LocalPermutation
    stash_found : receiver_indices stash known ≡ some (stash_at, perm)
    placed : Stash V
    placed_made :
        place_indices t.xs_receiver_order t.ys_receiver_order 0 stash_at
          (record { touched = t.touched; stash_xs = t.stash_xs; stash_ys = t.stash_ys })
        ≡ some placed
    result :
        record t {
          builder_stash_indices = stash;
          touched = placed.touched;
          stash_xs = placed.stash_xs;
          stash_ys = placed.stash_ys;
          receiver_shuffle = some perm;
        }
        ≡ u

  place_stash-Placed :
      (stash : List ℕ) (known : LocalPermutation) (u : OhTable V Key)
      → place_stash t stash known ≡ some u
      → Placed stash known u
  unfolding place_stash
  place_stash-Placed stash known u h =
      let ((stash_at, perm), e1, h1) = >>=-eq-some (receiver_indices stash known) _ h in
      let (placed, e2, h2) =
        >>=-eq-some
          (place_indices t.xs_receiver_order t.ys_receiver_order 0 stash_at
            (record { touched = t.touched; stash_xs = t.stash_xs; stash_ys = t.stash_ys }))
          _ h1 in
      record {
        stash_at = stash_at;
        perm = perm;
        stash_found = e1;
        placed = placed;
        placed_made = e2;
        result = some-inj h2;
      }

module _ {V Key : Type 0} ⦃d : DoramValue V⦄ (prf : Key → ℕ → ℕ) (p : OhTableParams) (xs : List ℕ)
    (ys : List (Record V)) (key : Key) where
  -- The tags, addresses and records before the builder's shuffle.
  abbrev pub all_tags : List ℕ
  all_tags = map (prf key) xs ++ drop p.num_elements (replicate (total_size p) 0)

  abbrev pub all_xs : List ℕ
  all_xs = xs ++ drop p.num_elements (replicate (total_size p) (2 ^ p.log_address_space_size))

  abbrev pub all_ys : List (Record V)
  all_ys = ys ++ drop p.num_elements (replicate (total_size p) zero_record)

  abbrev pub empty_stash : Stash V
  empty_stash = record {
    touched = replicate (total_size p) false;
    stash_xs = replicate p.stash_size 0;
    stash_ys = replicate p.stash_size zero_record;
  }

  pub record Chain (t : OhTable V Key) : Type 0 where
    pub xs_length : length xs ≡ p.num_elements
    pub ys_length : length ys ≡ p.num_elements
    pub room : p.stash_size ≤ p.num_elements
    pub shuffler : ArrayShuffler
    pub fits : Fits shuffler (total_size p)
    pub qs : List ℕ
    pub xs_builder : List ℕ
    pub ys_builder : List (Record V)
    pub indices : List ℕ
    pub qs_made : forward shuffler all_tags ≡ some qs
    pub xs_made : forward shuffler all_xs ≡ some xs_builder
    pub ys_made : forward shuffler all_ys ≡ some ys_builder
    pub indices_made : backward shuffler (range 0 (total_size p)) ≡ some indices
    pub local : LocalPermutation
    pub local_valid : Inverse.IsValid local
    pub local_n : local.n ≡ p.num_elements
    pub blocks : List ℕ
    pub blocks_made : shuffle local (compact 0 qs) ≡ some blocks
    pub table : ℕ → ℕ
    pub stash : List ℕ
    pub table_made : build p.stash_size p.log_single_col_len blocks ≡ some (table, stash)
    pub known : LocalPermutation
    pub known_valid : Inverse.IsValid known
    pub known_n : known.n ≡ total_size p
    pub xs_receiver : List ℕ
    pub ys_receiver : List (Record V)
    pub xs_ordered : shuffle known xs_builder ≡ some xs_receiver
    pub ys_ordered : shuffle known ys_builder ≡ some ys_receiver
    pub stash_at : List ℕ
    pub perm : LocalPermutation
    pub stash_found : receiver_indices stash known ≡ some (stash_at, perm)
    pub placed : Stash V
    pub placed_made : place_indices xs_receiver ys_receiver 0 stash_at empty_stash ≡ some placed
    pub result :
        record (unbuilt prf p key) {
          qs_builder_order = qs;
          xs_builder_order = xs_builder;
          ys_builder_order = ys_builder;
          dummy_indices = drop p.num_elements indices;
          cht_2shares = table;
          xs_receiver_order = xs_receiver;
          ys_receiver_order = ys_receiver;
          builder_stash_indices = stash;
          touched = placed.touched;
          stash_xs = placed.stash_xs;
          stash_ys = placed.stash_ys;
          receiver_shuffle = some perm;
        }
        ≡ t

  pub new-Chain : (coins : Coins) (t : OhTable V Key) → new prf p xs ys key coins ≡ some t → Chain t
  unfolding new build_table validate fill_prf_tags
  new-Chain coins t h =
      let (_, checked, h1) = >>=-eq-some (validate p) _ h in
      let (_, fit_xs, h2) = >>=-eq-some (ensure (length xs == p.num_elements)) _ h1 in
      let (_, fit_ys, h3) = >>=-eq-some (ensure (length ys == p.num_elements)) _ h2 in
      let (_, _, h4) = >>=-eq-some (ensure (length xs == p.num_elements)) _ h3 in
      let (_, _, h5) = >>=-eq-some (ensure (length ys == p.num_elements)) _ h4 in
      let (_, fits, _) = >>=-eq-some (ensure (leb p.stash_size p.num_elements)) _ checked in
      let (u1, a, h6) =
        >>=-eq-some (shuffle_builder_order start xs ys coins.builder_shuffler) _ h5 in
      let ((u2, stash), b, h7) = >>=-eq-some (build_cht u1 coins.builder_local_perm) _ h6 in
      let ((u3, known), c, h8) =
        >>=-eq-some (shuffle_receiver_order u2 coins.receiver_shuffler) _ h7 in
      compose u1 u2 u3 stash known ((==_iff _ _).0 (ensure-eq-some _ fit_xs))
        ((==_iff _ _).0 (ensure-eq-some _ fit_ys))
        (leb→le p.stash_size p.num_elements (ensure-eq-some _ fits))
        (shuffle_builder_order-Shuffled start xs ys coins.builder_shuffler u1 a)
        (build_cht-Inserted u1 coins.builder_local_perm u2 stash b)
        (shuffle_receiver_order-Ordered u2 coins.receiver_shuffler u3 known c)
        (place_stash-Placed u3 stash known t h8)
    where
      start : OhTable V Key
      start = record (unbuilt prf p key) { qs_builder_order = all_tags }

      compose :
          (u1 u2 u3 : OhTable V Key) (stash : List ℕ) (known : LocalPermutation)
          → length xs ≡ p.num_elements
          → length ys ≡ p.num_elements
          → p.stash_size ≤ p.num_elements
          → (s : Shuffled start xs ys u1) → Inserted u1 u2 stash
          → Ordered u2 u3 known
          → Placed u3 stash known t
          → Chain t
      compose u1 u2 u3 stash known lx ly room s inserted ordered placed =
          let i = subst (λ u. Inserted u u2 stash) (sym s.result) inserted in
          let o = subst (λ u. Ordered u u3 known) (sym i.result) ordered in
          let f = subst (λ u. Placed u stash known t) (sym o.result) placed in
          record {
            xs_length = lx;
            ys_length = ly;
            room = room;
            shuffler = s.shuffler;
            fits = s.fits;
            qs = s.qs;
            xs_builder = s.xs_builder;
            ys_builder = s.ys_builder;
            indices = s.indices;
            qs_made = s.qs_made;
            xs_made = s.xs_made;
            ys_made = s.ys_made;
            indices_made = s.indices_made;
            local = i.local;
            local_valid = i.local_valid;
            local_n = i.local_n;
            blocks = i.blocks;
            blocks_made = i.blocks_made;
            table = i.table;
            stash = stash;
            table_made = i.table_made;
            known = known;
            known_valid = o.known_valid;
            known_n = o.known_n;
            xs_receiver = o.xs_receiver;
            ys_receiver = o.ys_receiver;
            xs_ordered = o.xs_ordered;
            ys_ordered = o.ys_ordered;
            stash_at = f.stash_at;
            perm = f.perm;
            stash_found = f.stash_found;
            placed = f.placed;
            placed_made = f.placed_made;
            result = f.result;
          }
