-- ===== src/DataStructures/OhTable/Made.antt =====
-- A build that succeeds gives a sound table, in which every element has its entry or stands in
-- the stash.
use gigadoram_rs.Base.{
  some-inj, ℕ, ◌+◌, ◌/◌, ◌^◌, ◌<◌, ◌≤◌, ◌≡◌, ◌≢◌, ◌⊎◌, inl, inr, refl, sym, ap, ap₂, ◌∙◌, subst,
  arith, List, some, true, false, length-drop, get_elem?, get_elem?-of_lt, lt_of_get_elem?, drop,
}
use gigadoram_rs.Primitives.Permutation.Indices.{target, source-target}
use gigadoram_rs.Primitives.Permutation.Inverse.{last}
use gigadoram_rs.Primitives.ArrayShuffle.Indices.{shuffle-at, step_from}
use gigadoram_rs.Primitives.Utils.{low_u32}
use gigadoram_rs.Primitives.Value.{DoramValue, Record}
use gigadoram_rs.DataStructures.OhTable.Answering.{missing, present}
use gigadoram_rs.DataStructures.OhTable.Params.{OhTableParams, total_size}
use gigadoram_rs.DataStructures.OhTable.Table.{OhTable}
use gigadoram_rs.DataStructures.OhTable.Valid.{IsTable}
use gigadoram_rs.DataStructures.OhTable.Distinct.{Distinct, Finds-Distinct}
use gigadoram_rs.DataStructures.OhTable.Entries.{
  position, entry, entry_at, FindsAt, Absent, IsSound, entry-FindsAt, entry-Absent,
}
use gigadoram_rs.DataStructures.OhTable.Chain.{Chain, all_xs}
use gigadoram_rs.DataStructures.OhTable.Positions.{
  place_of-lt, place_of-inj, length-indices, length-all_xs, dummy-at, xs_receiver-at,
  ys_receiver-at, element_x, element_y, dummy_x, dummy_y, element, dummy, occupant, xs-at, index_of,
}
use gigadoram_rs.DataStructures.OhTable.Lookups.{
  TagsApart, Labels, same_label, block_of_element, lookup_of, table_finds, low_apart, tags_distinct,
}
use gigadoram_rs.DataStructures.OhTable.Built.{
  place, at_receiver, made, copied, perm_fits, perm_position, stash_target, stash_marked,
  others_unmarked, stash_element, Stored-Located, located,
}

module _ {V Key : Type 0} ⦃d : DoramValue V⦄ (prf : Key → ℕ → ℕ) (p : OhTableParams) (xs : List ℕ)
    (ys : List (Record V)) (key : Key) (t : OhTable V Key) (c : Chain prf p xs ys key t)
    (tags : TagsApart prf key) (labels : Labels xs) (small : total_size p ≤ 2 ^ 32) where
  abbrev u : OhTable V Key
  u = made prf p xs ys key t c tags labels small

  home : ℕ → ℕ
  unfolding place
  home e = place prf p xs ys key t c tags labels small e

  home-inj : (e e' : ℕ) → home e ≡ home e' → e ≡ e'
  unfolding home place
  home-inj e e' same = place_of-inj prf p xs ys key t c e e' same

  home-lt : (e : ℕ) → e < total_size p → home e < total_size p
  unfolding home place
  home-lt e lt = place_of-lt prf p xs ys key t c e lt

  -- An element is found, or it stands in the stash.
  data Where (e x : ℕ) : Type 0 where
    in_table :
        FindsAt u (prf key x) (home e) → ((k : ℕ) → get_elem? c.stash k ≢ some (home e)) → Where e x
    in_stash : Absent u (prf key x) → (k : ℕ) → get_elem? c.stash k ≡ some (home e) → Where e x

  element_where : (e x : ℕ) → get_elem? xs e ≡ some x → Where e x
  unfolding home place
  element_where e x at =
      let (k, b, found, low, upper) =
        block_of_element prf p xs ys key t c tags labels small e x at in
      elim (lookup_of prf p xs ys key t c tags labels small (prf key x)
        (tags.real x (labels.small e x at))) [
          | inl (k', b', s) ↦
              let same : k' ≡ k =
                tags_distinct prf p xs ys key t c tags labels small k' k b' b s.at found
                  (sym s.tag ∙ sym upper) in
              let one : b' ≡ b = some-inj (sym s.at ∙ ap (get_elem? c.blocks) same ∙ found) in
              let l =
                Stored-Located prf p xs ys key t c tags labels small (prf key x) k' b'
                  (tags.real x (labels.small e x at)) s in
              let there : low_u32 b' ≡ home e = ap low_u32 one ∙ low in
              in_table (subst (λ j. FindsAt u (prf key x) j) there l.found)
                (subst (λ j. (k : ℕ) → get_elem? c.stash k ≢ some j) there l.unstashed)
          | inr absent ↦
              let (k', _, _, stored) = absent.in_stash k b found (sym upper) in
              in_stash absent.absent k' (stored ∙ ap some low)
        ]

  -- What stands at the home of an element, in the receivers' order.
  home_x :
      (e : ℕ)
      → e < p.num_elements
      → get_elem? c.xs_receiver (at_receiver prf p xs ys key t c tags labels small (home e))
        ≡ get_elem? xs e
  unfolding home place at_receiver
  home_x e lt = xs_receiver-at prf p xs ys key t c _ ∙ element_x prf p xs ys key t c e lt

  home_y :
      (e : ℕ)
      → e < p.num_elements
      → get_elem? c.ys_receiver (at_receiver prf p xs ys key t c tags labels small (home e))
        ≡ get_elem? ys e
  unfolding home place at_receiver
  home_y e lt = ys_receiver-at prf p xs ys key t c _ ∙ element_y prf p xs ys key t c e lt

  to_perm :
      {A : Type 0} (us : List A) (j : ℕ)
      → get_elem? us (position c.perm j)
        ≡ get_elem? us (at_receiver prf p xs ys key t c tags labels small j)
  to_perm us j = ap (get_elem? us) (perm_position prf p xs ys key t c tags labels small j)

  not_stashed : (k : ℕ) → (k' : ℕ) → get_elem? c.stash k' ≢ some (home (p.num_elements + k))
  unfolding home
  not_stashed k k' h =
      let (e, x, lt, _, same) = stash_element prf p xs ys key t c tags labels small k' _ h in
      absurd (omega (arith, lt, home-inj (p.num_elements + k) e same))

  dummy_home :
      (k i : ℕ)
      → get_elem? (drop p.num_elements c.indices) k ≡ some i
      → i ≡ home (p.num_elements + k)
  unfolding home place
  dummy_home k i at =
      let lt = lt_of_get_elem? (drop p.num_elements c.indices) k at in
      some-inj (
        sym at
        ∙ dummy-at prf p xs ys key t c k (
            omega (
              arith,
              lt,
              length-drop p.num_elements c.indices,
              length-indices prf p xs ys key t c,
            )))

  label_here :
      (x i : ℕ)
      → x < 2 ^ 32
      → FindsAt u (prf key x) i
      → (e : ℕ) × (e < p.num_elements) × (get_elem? xs e ≡ some x) × (i ≡ home e)
  unfolding home
  label_here x i lt found =
      let l = located prf p xs ys key t c tags labels small (prf key x) i (tags.real x lt) found in
      let same : x ≡ l.x =
        same_label prf p xs ys key t c tags labels small x l.x lt (labels.small l.e l.x l.at)
          l.tag in
      (l.e, l.inside, l.at ∙ ap some (sym same), l.there)

  -- Who stands at an unmarked position.
  owner_at :
      (at x : ℕ)
      → get_elem? c.placed.touched at ≡ some false
      → get_elem? c.xs_receiver at ≡ some x
      → (x ≡ 2 ^ p.log_address_space_size)
        ⊎ ((x < 2 ^ 32) × ((i : ℕ) × FindsAt u (prf key x) i × (position c.perm i ≡ at)))
  unfolding home place at_receiver step_from
  owner_at at x clear stands =
      let j : ℕ = target c.known.fy (last c.known) at in
      let back : at_receiver prf p xs ys key t c tags labels small j ≡ at =
        source-target c.known.fy (last c.known) at in
      let (_, _, moved) =
        shuffle-at c.known c.xs_builder c.xs_receiver c.known_valid c.xs_ordered in
      let stands_built : get_elem? c.xs_builder j ≡ some x = sym (moved at) ∙ stands in
      let inside =
        lt_of_get_elem? (all_xs prf p xs ys key) (index_of prf p xs ys key t c j)
          (sym (xs-at prf p xs ys key t c j) ∙ stands_built) in
      elim (occupant prf p xs ys key t c j
        (omega (arith, inside, length-all_xs prf p xs ys key t c))) [
          | dummy k lt there ↦ inl (
              some-inj (
                sym stands_built
                ∙ ap (get_elem? c.xs_builder) (sym there)
                ∙ dummy_x prf p xs ys key t c k lt))
          | element e lt there ↦
              let x_at : get_elem? xs e ≡ some x =
                sym (element_x prf p xs ys key t c e lt)
                ∙ ap (get_elem? c.xs_builder) there
                ∙ stands_built in
              elim (element_where e x x_at) [
                | in_table found _ ↦ inr (
                  labels.small e x x_at,
                  (
                    home e,
                    found,
                    perm_position prf p xs ys key t c tags labels small (home e)
                        ∙ ap (at_receiver prf p xs ys key t c tags labels small) there
                        ∙ back,
                  ),
                )
                | in_stash absent k stored ↦ absurd (
                    clash (
                      sym clear
                      ∙ ap (get_elem? c.placed.touched) (sym back)
                      ∙ stash_marked prf p xs ys key t c tags labels small k j
                          (stored ∙ ap some there)))
              ]
        ]
    where
      clash : some false ≡ some true → ⊥
      clash h = cc

  pub made-IsSound : IsTable u → IsSound prf u
  unfolding home place at_receiver
  made-IsSound valid = record {
    valid = valid;
    perm = c.perm;
    shuffled = refl;
    perm_valid = (perm_fits prf p xs ys key t c tags labels small).0;
    perm_size = (perm_fits prf p xs ys key t c tags labels small).1;
    finds = λ q real. elim (lookup_of prf p xs ys key t c tags labels small q real) [
      | inl (k, b, s) ↦
          let l = Stored-Located prf p xs ys key t c tags labels small q k b real s in
          inl (
            low_u32 b,
            subst (λ (n : ℕ). n < total_size p) (sym l.there)
                (home-lt l.e (omega (arith, l.inside))),
            l.found,
          )
      | inr absent ↦ inr absent.absent
    ];
    finds_apart = λ q q' i real real' found found'.
        let l = located prf p xs ys key t c tags labels small q i real found in
        let l' = located prf p xs ys key t c tags labels small q' i real' found' in
        let one : l.e ≡ l'.e = home-inj l.e l'.e (sym l.there ∙ l'.there) in
        let same : l.x ≡ l'.x = some-inj (sym l.at ∙ ap (get_elem? xs) one ∙ l'.at) in
        l.tag ∙ ap (λ y. prf key y / 2 ^ 32) same ∙ sym l'.tag;
    dummies = λ k _ lt. (
      home (p.num_elements + k),
      dummy-at prf p xs ys key t c k lt,
      home-lt (p.num_elements + k) (omega (arith, lt)),
      to_perm c.placed.touched (home (p.num_elements + k))
          ∙ others_unmarked prf p xs ys key t c tags labels small (home (p.num_elements + k))
              (home-lt (p.num_elements + k) (omega (arith, lt))) (not_stashed k),
      to_perm c.ys_receiver (home (p.num_elements + k))
          ∙ ys_receiver-at prf p xs ys key t c (home (p.num_elements + k))
          ∙ dummy_y prf p xs ys key t c k lt,
    );
    dummies_apart = λ k k' i at at'.
        let same =
          home-inj (p.num_elements + k) (p.num_elements + k')
            (sym (dummy_home k i at) ∙ dummy_home k' i at') in
        omega (arith, same);
    dummies_free = λ k i q at real found.
        let l = located prf p xs ys key t c tags labels small q i real found in
        let same = home-inj (p.num_elements + k) l.e (sym (dummy_home k i at) ∙ l.there) in
        absurd (omega (arith, same, l.inside));
    labels_apart = tags.apart;
    labels_real = tags.real;
    labels_at = λ x i lt found.
        let (e, inside, at, there) = label_here x i lt found in
        to_perm c.xs_receiver i
        ∙ ap (λ j. get_elem? c.xs_receiver (at_receiver prf p xs ys key t c tags labels small j))
            there
        ∙ home_x e inside
        ∙ at;
    owners = owner_at;
  }

  -- An element that is found has its record as the entry.
  found_entry :
      (e x : ℕ) (y : Record V)
      → get_elem? xs e ≡ some x
      → get_elem? ys e ≡ some y
      → FindsAt u (prf key x) (home e)
      → ((k : ℕ) → get_elem? c.stash k ≢ some (home e))
      → entry u (prf key x) ≡ present y
  found_entry e x y at_x at_y found unstashed =
      let inside : e < p.num_elements = omega (arith, lt_of_get_elem? xs e at_x, c.xs_length) in
      entry-FindsAt u (prf key x) (home e) (tags.real x (labels.small e x at_x)) found
      ∙ ap₂ entry_at
          (to_perm c.placed.touched (home e)
            ∙ others_unmarked prf p xs ys key t c tags labels small (home e)
                (home-lt e (omega (arith, inside))) unstashed)
          (to_perm c.ys_receiver (home e) ∙ home_y e inside ∙ at_y)

  -- A position of the stash holds a copy of an element.
  record StashEntry (k : ℕ) : Type 0 where
    e : ℕ
    x : ℕ
    y : Record V
    at_x : get_elem? xs e ≡ some x
    at_y : get_elem? ys e ≡ some y
    stashed : get_elem? c.stash k ≡ some (home e)
    stash_x : get_elem? c.placed.stash_xs k ≡ some x
    stash_y : get_elem? c.placed.stash_ys k ≡ some y

  stash_entry : (k j : ℕ) → get_elem? c.stash k ≡ some j → StashEntry k
  unfolding home
  stash_entry k j h =
      let (e, x, inside, at, there) = stash_element prf p xs ys key t c tags labels small k j h in
      let held = copied prf p xs ys key t c tags labels small in
      let (x', y, at_x, at_y, in_xs, in_ys) =
        held.copied k _ (stash_target prf p xs ys key t c tags labels small k j h) in
      let moved : at_receiver prf p xs ys key t c tags labels small j
          ≡ at_receiver prf p xs ys key t c tags labels small (home e) =
        ap (at_receiver prf p xs ys key t c tags labels small) there in
      let same : x' ≡ x =
        some-inj (sym at_x ∙ ap (get_elem? c.xs_receiver) moved ∙ home_x e inside ∙ at) in
      record {
        e = e;
        x = x;
        y = y;
        at_x = at;
        at_y = sym (home_y e inside) ∙ ap (get_elem? c.ys_receiver) (sym moved) ∙ at_y;
        stashed = h ∙ ap some there;
        stash_x =
            ap (get_elem? c.placed.stash_xs) {x = k} {y = 0 + k} (omega arith)
            ∙ in_xs
            ∙ ap some same;
        stash_y = ap (get_elem? c.placed.stash_ys) {x = k} {y = 0 + k} (omega arith) ∙ in_ys;
      }

  StashEntry-at : IsTable u → (k x : ℕ) → get_elem? c.placed.stash_xs k ≡ some x → StashEntry k
  StashEntry-at valid k x h =
      let lt : k < p.stash_size =
        omega (arith, lt_of_get_elem? c.placed.stash_xs k h, valid.xs_stash) in
      let finds = table_finds prf p xs ys key t c tags labels small in
      let (j, at) = get_elem?-of_lt c.stash k (omega (arith, lt, finds.size)) in stash_entry k j at

  stash_Distinct : Distinct c.stash
  stash_Distinct =
      Finds-Distinct p.log_single_col_len c.blocks p.stash_size c.table c.stash
        (table_finds prf p xs ys key t c tags labels small)
        (low_apart prf p xs ys key t c tags labels small)

  same_element :
      (e e' x : ℕ) → get_elem? xs e ≡ some x → get_elem? xs e' ≡ some x → home e ≡ home e'
  same_element e e' x at at' = ap home (labels.once e e' x at at')

  -- What a build makes of its elements.
  pub element_made :
      IsTable u
      → (e x : ℕ) (y : Record V) → get_elem? xs e ≡ some x
      → get_elem? ys e ≡ some y
      → ((entry u (prf key x) ≡ present y) × ((k : ℕ) → get_elem? c.placed.stash_xs k ≢ some x))
        ⊎ ((entry u (prf key x) ≡ missing)
            × ((k : ℕ) × (get_elem? c.placed.stash_xs k ≡ some x)
                × (get_elem? c.placed.stash_ys k ≡ some y)))
  element_made valid e x y at_x at_y = elim (element_where e x at_x) [
    | in_table found unstashed ↦ inl (
      found_entry e x y at_x at_y found unstashed,
      (λ k h.
          let s = StashEntry-at valid k x h in
          let same : s.x ≡ x = some-inj (sym s.stash_x ∙ h) in
          unstashed k (s.stashed ∙ ap some (same_element s.e e x (s.at_x ∙ ap some same) at_x))),
    )
    | in_stash absent k stored ↦
        let s = stash_entry k (home e) stored in
        let one : s.e ≡ e = home-inj s.e e (some-inj (sym s.stashed ∙ stored)) in
        inr (
          entry-Absent u (prf key x) (tags.real x (labels.small e x at_x)) absent,
          (
            k,
            s.stash_x ∙ sym s.at_x ∙ ap (get_elem? xs) one ∙ at_x,
            s.stash_y ∙ sym s.at_y ∙ ap (get_elem? ys) one ∙ at_y,
          ),
        )
  ]

  -- A label that is no element has no entry, and the stash holds elements, each once.
  pub absent_made :
      (x : ℕ) → x < 2 ^ 32 → ((e : ℕ) → get_elem? xs e ≢ some x) → entry u (prf key x) ≡ missing
  absent_made x lt none_of_them =
      elim (lookup_of prf p xs ys key t c tags labels small (prf key x) (tags.real x lt)) [
        | inr absent ↦ entry-Absent u (prf key x) (tags.real x lt) absent.absent
        | inl (k, b, s) ↦
            let (e, _, at, _) = label_here x (low_u32 b) lt s.found in absurd (none_of_them e at)
      ]

  pub stash_made :
      IsTable u
      → (k x : ℕ) → get_elem? c.placed.stash_xs k ≡ some x
      → (e : ℕ) × (get_elem? xs e ≡ some x)
  stash_made valid k x h = let s = StashEntry-at valid k x h in (s.e, s.at_x ∙ sym s.stash_x ∙ h)

  pub stash_once : IsTable u → Distinct c.placed.stash_xs
  stash_once valid k k' x h h' =
      let s = StashEntry-at valid k x h in
      let s' = StashEntry-at valid k' x h' in
      let same =
        same_element s.e s'.e x (s.at_x ∙ sym s.stash_x ∙ h) (s'.at_x ∙ sym s'.stash_x ∙ h') in
      stash_Distinct k k' (home s'.e) (s.stashed ∙ ap some same) s'.stashed
