-- ===== src/DataStructures/OhTable/Answers.antt =====
-- A sound table answers a query with the entry of its tag, and stays sound.
use gigadoram_rs.Base.{
  ℕ, ◌-◌, ◌/◌, ◌^◌, ◌<◌, ◌≡◌, ◌≢◌, inl, inr, refl, sym, ap, ap₂, ◌∙◌, subst, arith, Option, none,
  some, Bool, true, false, if◌then◌else◌, lt→ltb, set, get_elem?, get_elem?-set_ne,
  get_elem?-set_self, lt_of_get_elem?, ℕ_discrete,
}
use gigadoram_rs.Primitives.Permutation.{LocalPermutation, evaluate_at}
use gigadoram_rs.Primitives.Permutation.Indices.{source}
use gigadoram_rs.Primitives.Permutation.Inverse
use gigadoram_rs.Primitives.Permutation.Inverse.{last}
use gigadoram_rs.Primitives.Permutation.Evaluate.{evaluate_at_lem}
use gigadoram_rs.Primitives.Value.{DoramValue, Record, zero_record}
use gigadoram_rs.DataStructures.Cht.{lookup}
use gigadoram_rs.DataStructures.OhTable.Answering.{Entry, missing, present, taken}
use gigadoram_rs.DataStructures.OhTable.Params.{total_size}
use gigadoram_rs.DataStructures.OhTable.Table.{OhTable, query, mark}
use gigadoram_rs.DataStructures.OhTable.Valid.{IsTable, query-IsTable}
use gigadoram_rs.DataStructures.OhTable.Entries.{
  entry_at, position, position-inj, entry_in, entry, FindsAt, Absent, IsSound, entry-FindsAt,
  entry-Absent, entry-unreal,
}

entry_at-missing : {V : Type 0} (b : Option Bool) (y : Option (Record V)) → entry_at b y ≢ missing
entry_at-missing (some false) (some y) h = cc
entry_at-missing (some false) none h = cc
entry_at-missing (some true) y h = cc
entry_at-missing none y h = cc

entry_at-present :
    {V : Type 0} (b : Option Bool) (y : Option (Record V)) (r : Record V)
    → entry_at b y ≡ present r
    → (b ≡ some false) × (y ≡ some r)
entry_at-present (some false) (some y) r h = (refl, cc)
entry_at-present (some false) none r h = cc
entry_at-present (some true) y r h = cc
entry_at-present none y r h = cc

taken_missing : {V : Type 0} {e : Entry V} → e ≡ taken → e ≡ missing → ⊥
taken_missing h h' = cc

module _ {V Key : Type 0} ⦃d : DoramValue V⦄ (prf : Key → ℕ → ℕ) (t : OhTable V Key)
    (sound : IsSound prf t) where
  pub entry-position :
      (q i : ℕ) → q / 2 ^ 32 ≢ 0 → FindsAt t q i → entry t q ≡ entry_in t (some sound.perm) i
  entry-position q i real found =
      entry-FindsAt t q i real found ∙ ap (λ o. entry_in t o i) sound.shuffled

  -- What an entry says of the lookup.
  pub entry-missing : (q : ℕ) → entry t q ≡ missing → (q / 2 ^ 32 ≢ 0) × Absent t q
  entry-missing q h = elim (ℕ_discrete (q / 2 ^ 32) 0) [
    | yes unreal ↦ absurd (taken_missing (entry-unreal t q unreal) h)
    | no real ↦ elim (sound.finds q real) [
      | inr absent ↦ (real, absent)
      | inl (i, _, found) ↦ absurd (entry_at-missing _ _ (sym (entry-position q i real found) ∙ h))
    ]
  ]

  -- A tag with a record.
  pub record Present (q : ℕ) (y : Record V) : Type 0 where
    pub real : q / 2 ^ 32 ≢ 0
    pub index : ℕ
    pub inside : index < total_size t.params
    pub found : FindsAt t q index
    pub clear : get_elem? t.touched (position sound.perm index) ≡ some false
    pub stored : get_elem? t.ys_receiver_order (position sound.perm index) ≡ some y

  pub entry-present : (q : ℕ) (y : Record V) → entry t q ≡ present y → Present q y
  entry-present q y h = elim (ℕ_discrete (q / 2 ^ 32) 0) [
    | yes unreal ↦ absurd (clash (sym (entry-unreal t q unreal) ∙ h))
    | no real ↦ elim (sound.finds q real) [
      | inr absent ↦ absurd (clash' (sym (entry-Absent t q real absent) ∙ h))
      | inl (i, inside, found) ↦
          let (clear, stored) = entry_at-present _ _ y (sym (entry-position q i real found) ∙ h) in
          record {
            real = real;
            index = i;
            inside = inside;
            found = found;
            clear = clear;
            stored = stored;
          }
    ]
  ]
    where
      clash : taken ≡ present y → ⊥
      clash h = cc

      clash' : missing ≡ present y → ⊥
      clash' h = cc

  -- A query whose lookup leads to the position `i`.
  module _ (i : ℕ) (inside : i < total_size t.params)
      (clear : get_elem? t.touched (position sound.perm i) ≡ some false) where
    pub record Evaluated : Type 0 where
      pub next : LocalPermutation
      pub evaluated : evaluate_at sound.perm i ≡ some (position sound.perm i, next)
      pub next_valid : Inverse.IsValid next
      pub next_fy : next.fy ≡ sound.perm.fy
      pub next_n : next.n ≡ sound.perm.n

    pub evaluate : Evaluated
    evaluate =
        let (next, e, v, _, fy, n) =
          evaluate_at_lem sound.perm sound.perm_valid i (omega (arith, inside, sound.perm_size)) in
        record { next = next; evaluated = e; next_valid = v; next_fy = fy; next_n = n }

    query-run :
        (q : ℕ) (use_dummy : Bool) (random dummy : ℕ) (found : Bool) (y : Record V)
        → t.query_count < t.params.num_dummies
        → get_elem? t.dummy_indices t.query_count ≡ some dummy
        → lookup t.params.log_single_col_len t.cht_2shares (if use_dummy then random else q) dummy
          ≡ (i, found)
        → get_elem? t.ys_receiver_order (position sound.perm i) ≡ some y
        → query t q use_dummy random
          ≡ some (mark t (position sound.perm i) evaluate.next, (y, found))
    unfolding query
    query-run q use_dummy random dummy found y spare dummy_at looked stored =
        let at_index =
          ap (λ (f : ℕ × Bool). evaluate_at sound.perm f.0) looked ∙ evaluate.evaluated in
        rw
          (
            lt→ltb t.query_count t.params.num_dummies spare,
            dummy_at,
            sound.shuffled,
            at_index,
            clear,
            stored,
          )
          (ap (λ (f : ℕ × Bool). some (mark t (position sound.perm i) evaluate.next, (y, f.1)))
            looked)

    same_position : (j : ℕ) → position evaluate.next j ≡ position sound.perm j
    same_position j = ap₂ (λ f (n : ℕ). source f (n - 1) j) evaluate.next_fy evaluate.next_n

    marked_clear :
        (j : ℕ)
        → i ≢ j
        → get_elem?
            (mark t (position sound.perm i) evaluate.next).touched
            (position evaluate.next j)
          ≡ get_elem? t.touched (position sound.perm j)
    unfolding mark
    marked_clear j ne =
        ap (λ (n : ℕ). get_elem? (mark t (position sound.perm i) evaluate.next).touched n)
          (same_position j)
        ∙ get_elem?-set_ne t.touched (position sound.perm i) (position sound.perm j) true
            (λ same. ne (position-inj sound.perm i j same))

    mark-IsSound :
        IsTable (mark t (position sound.perm i) evaluate.next)
        → ((k j : ℕ) → t.query_count < k → get_elem? t.dummy_indices k ≡ some j → i ≢ j)
        → IsSound prf (mark t (position sound.perm i) evaluate.next)
    unfolding mark
    mark-IsSound valid others = record {
      valid = valid;
      perm = evaluate.next;
      shuffled = refl;
      perm_valid = evaluate.next_valid;
      perm_size = evaluate.next_n ∙ sound.perm_size;
      finds = sound.finds;
      finds_apart = sound.finds_apart;
      dummies = λ k le lt.
          let (j, at, inside_j, clear_j, zero_j) = sound.dummies k (omega arith) lt in
          (
            j,
            at,
            inside_j,
            marked_clear j (others k j (omega arith) at) ∙ clear_j,
            ap (get_elem? t.ys_receiver_order) (same_position j) ∙ zero_j,
          );
      dummies_apart = sound.dummies_apart;
      dummies_free = sound.dummies_free;
      labels_apart = sound.labels_apart;
      labels_real = sound.labels_real;
      labels_at = λ x j lt found.
          ap (get_elem? t.xs_receiver_order) (same_position j) ∙ sound.labels_at x j lt found;
      owners = λ at x clear_at stands. elim (sound.owners at x (was_clear at clear_at) stands) [
        | inl dummy ↦ inl dummy
        | inr (lt, (j, found, there)) ↦ inr (lt, (j, found, same_position j ∙ there))
      ];
    }
      where
        was_clear :
            (at : ℕ)
            → get_elem? (set t.touched (position sound.perm i) true) at ≡ some false
            → get_elem? t.touched at ≡ some false
        was_clear at h = elim (ℕ_discrete (position sound.perm i) at) [
          | yes same ↦ subst (λ (n : ℕ). get_elem? t.touched n ≡ some false) same clear
          | no other ↦ sym (get_elem?-set_ne t.touched (position sound.perm i) at true other) ∙ h
        ]

    -- Tags that lead elsewhere keep their entries.
    mark-entry_other :
        (q : ℕ)
        → (q / 2 ^ 32 ≢ 0 → ¬ FindsAt t q i)
        → entry (mark t (position sound.perm i) evaluate.next) q ≡ entry t q
    unfolding mark
    mark-entry_other q elsewhere = elim (ℕ_discrete (q / 2 ^ 32) 0) [
      | yes unreal ↦ entry-unreal _ q unreal ∙ sym (entry-unreal t q unreal)
      | no real ↦ elim (sound.finds q real) [
        | inr absent ↦ entry-Absent _ q real absent ∙ sym (entry-Absent t q real absent)
        | inl (j, _, found) ↦
            let ne : i ≢ j = λ same. elsewhere real (subst (λ k. FindsAt t q k) (sym same) found) in
            entry-FindsAt (mark t (position sound.perm i) evaluate.next) q j real found
            ∙ ap₂ entry_at (marked_clear j ne)
                (ap (get_elem? t.ys_receiver_order) (same_position j))
            ∙ sym (entry-position q j real found)
      ]
    ]

    -- The tag that leads here is taken.
    mark-entry_self :
        (q : ℕ)
        → q / 2 ^ 32 ≢ 0
        → FindsAt t q i
        → entry (mark t (position sound.perm i) evaluate.next) q ≡ taken
    unfolding mark
    mark-entry_self q real found =
        entry-FindsAt (mark t (position sound.perm i) evaluate.next) q i real found
        ∙ ap (λ b. entry_at b (get_elem? t.ys_receiver_order (position evaluate.next i)))
            (ap (λ (n : ℕ). get_elem? (mark t (position sound.perm i) evaluate.next).touched n)
                (same_position i)
              ∙ get_elem?-set_self t.touched (position sound.perm i) true
                  (lt_of_get_elem? t.touched (position sound.perm i) clear))

  module _ (q : ℕ) (use_dummy : Bool) (random : ℕ)
      (spare : t.query_count < t.params.num_dummies) where
    -- The tag that the query looks up.
    abbrev looked_up : ℕ
    looked_up = if use_dummy then random else q

    -- A sound table with a dummy left answers a query for a tag without an entry with the zero
    -- record, and keeps its entries and its soundness.
    pub query-missing :
        entry t (if use_dummy then random else q) ≡ missing
        → (t' : OhTable V Key) × (query t q use_dummy random ≡ some (t', (zero_record, false)))
          × IsSound prf t'
          × ((tag : ℕ) → entry t' tag ≡ entry t tag)
    query-missing h =
        let (real, absent) = entry-missing looked_up h in
        let (i, at, inside, clear, stored) = sound.dummies t.query_count (omega arith) spare in
        let run =
          query-run i inside clear q use_dummy random i false zero_record spare at (absent i)
            stored in
        let valid = (query-IsTable t _ q use_dummy random zero_record false sound.valid run).0 in
        (
          mark t (position sound.perm i) (evaluate i inside clear).next,
          run,
          mark-IsSound i inside clear valid (λ k j later at_k same. absurd (
              omega (
                arith,
                later,
                sound.dummies_apart t.query_count k i at (at_k ∙ ap some (sym same)),
              ))),
          (λ tag.
              mark-entry_other i inside clear tag
                (λ real_tag found. sound.dummies_free t.query_count i tag at real_tag found)),
        )

    -- A sound table with a dummy left answers a query for a tag with a record with this record. It
    -- takes the entry, and keeps those of tags that differ above their low halves, and its
    -- soundness.
    pub query-present :
        (r : Record V)
        → entry t (if use_dummy then random else q) ≡ present r
        → (t' : OhTable V Key) × (query t q use_dummy random ≡ some (t', (r, true)))
          × IsSound prf t'
          × (entry t' (if use_dummy then random else q) ≡ taken)
          × ((tag : ℕ)
              → tag / 2 ^ 32 ≢ (if use_dummy then random else q) / 2 ^ 32
              → entry t' tag ≡ entry t tag)
    query-present r h =
        let there = entry-present looked_up r h in
        let i = there.index in
        let (dummy, at, _, _, _) = sound.dummies t.query_count (omega arith) spare in
        let run =
          query-run i there.inside there.clear q use_dummy random dummy true r spare at
            (there.found dummy) there.stored in
        let valid = (query-IsTable t _ q use_dummy random r true sound.valid run).0 in
        (
          mark t (position sound.perm i) (evaluate i there.inside there.clear).next,
          run,
          mark-IsSound i there.inside there.clear valid (λ k j later at_k same.
              sound.dummies_free k i looked_up (at_k ∙ ap some (sym same)) there.real there.found),
          mark-entry_self i there.inside there.clear looked_up there.real there.found,
          (λ tag differs. mark-entry_other i there.inside there.clear tag (λ real_tag found.
              differs (sound.finds_apart tag looked_up i real_tag there.real found there.found))),
        )
