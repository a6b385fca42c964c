-- ===== src/DataStructures/OhTable/Entries.antt =====
-- The entries of the code's tables: where the lookup of a tag leads, and what stands there.
use gigadoram_rs.Base.{
  ℕ, ◌/◌, ◌^◌, ◌<◌, ◌≤◌, ◌≡◌, ◌≢◌, ◌⊎◌, sym, ap, ap₂, ◌∙◌, arith, Option, none, some, Bool, true,
  false, ◌==◌, ==_iff, get_elem?,
}
use gigadoram_rs.Primitives.Permutation.{LocalPermutation}
use gigadoram_rs.Primitives.Permutation.Indices.{source, target, target-source}
use gigadoram_rs.Primitives.Permutation.Inverse
use gigadoram_rs.Primitives.Permutation.Inverse.{last}
use gigadoram_rs.Primitives.Value.{DoramValue, Record, zero_record}
use gigadoram_rs.DataStructures.Cht.{lookup}
use gigadoram_rs.DataStructures.OhTable.Answering.{Entry, missing, present, taken}
use gigadoram_rs.DataStructures.OhTable.Params.{total_size}
use gigadoram_rs.DataStructures.OhTable.Table.{OhTable}
use gigadoram_rs.DataStructures.OhTable.Valid.{IsTable}

-- An entry by its mark and its record.
abbrev pub entry_at : {V : Type 0} → Option Bool → Option (Record V) → Entry V
entry_at (some false) (some y) = present y
entry_at (some false) none = taken
entry_at (some true) y = taken
entry_at none y = taken

-- The position in the receivers' order of a position in the builder's.
abbrev pub position : LocalPermutation → ℕ → ℕ
position perm i = source perm.fy (last perm) i

pub position-inj : (perm : LocalPermutation) (i j : ℕ) → position perm i ≡ position perm j → i ≡ j
position-inj perm i j same =
    sym (target-source perm.fy (last perm) i)
    ∙ ap (target perm.fy (last perm)) same
    ∙ target-source perm.fy (last perm) j

is_zero-false : (n : ℕ) → n ≢ 0 → (n == 0) ≡ false
is_zero-false n ne = ground arith

module _ {V Key : Type 0} where
  abbrev pub entry_in : OhTable V Key → Option LocalPermutation → ℕ → Entry V
  entry_in t none i = taken
  entry_in t (some perm) i =
      entry_at (get_elem? t.touched (position perm i))
        (get_elem? t.ys_receiver_order (position perm i))

  abbrev pub entry_found : OhTable V Key → ℕ × Bool → Entry V
  entry_found t (i, false) = missing
  entry_found t (i, true) = entry_in t t.receiver_shuffle i

  abbrev pub entry_tagged : OhTable V Key → Bool → ℕ × Bool → Entry V
  entry_tagged t true found = taken
  entry_tagged t false found = entry_found t found

  -- The entry for a tag. Tags whose upper part is zero are those of empty places.
  unfoldable pub entry : OhTable V Key → ℕ → Entry V
  unfolding lookup
  entry t q =
      entry_tagged t (q / 2 ^ 32 == 0) (lookup t.params.log_single_col_len t.cht_2shares q 0)

  -- The lookup of a tag leads to a position of the builder's order, or to the dummy.
  abbrev pub FindsAt : OhTable V Key → ℕ → ℕ → Type 0
  FindsAt t q i =
      (dummy_index : ℕ) → lookup t.params.log_single_col_len t.cht_2shares q dummy_index ≡ (i, true)

  abbrev pub Absent : OhTable V Key → ℕ → Type 0
  Absent t q =
      (dummy_index : ℕ)
      → lookup t.params.log_single_col_len t.cht_2shares q dummy_index ≡ (dummy_index, false)

  -- A table whose lookups lead to different positions for different tags, and to the label's own
  -- position for a label's tag, and which has a zero record that no query has returned for each
  -- dummy that is left.
  pub record IsSound ⦃d : DoramValue V⦄ (prf : Key → ℕ → ℕ) (t : OhTable V Key) : Type 0 where
    pub valid : IsTable t
    pub perm : LocalPermutation
    pub shuffled : t.receiver_shuffle ≡ some perm
    pub perm_valid : Inverse.IsValid perm
    pub perm_size : perm.n ≡ total_size t.params
    pub finds :
        (q : ℕ)
        → q / 2 ^ 32 ≢ 0
        → ((i : ℕ) × (i < total_size t.params) × FindsAt t q i) ⊎ Absent t q
    pub finds_apart :
        (q q' i : ℕ)
        → q / 2 ^ 32 ≢ 0
        → q' / 2 ^ 32 ≢ 0
        → FindsAt t q i
        → FindsAt t q' i
        → q / 2 ^ 32 ≡ q' / 2 ^ 32
    pub dummies :
        (k : ℕ)
        → t.query_count ≤ k
        → k < t.params.num_dummies
        → (i : ℕ) × (get_elem? t.dummy_indices k ≡ some i)
          × (i < total_size t.params)
          × (get_elem? t.touched (position perm i) ≡ some false)
          × (get_elem? t.ys_receiver_order (position perm i) ≡ some zero_record)
    pub dummies_apart :
        (k k' i : ℕ)
        → get_elem? t.dummy_indices k ≡ some i
        → get_elem? t.dummy_indices k' ≡ some i
        → k ≡ k'
    pub dummies_free :
        (k i q : ℕ) → get_elem? t.dummy_indices k ≡ some i → q / 2 ^ 32 ≢ 0 → ¬ FindsAt t q i
    pub labels_apart :
        (x x' : ℕ)
        → x < 2 ^ 32
        → x' < 2 ^ 32
        → x ≢ x'
        → prf t.key x' / 2 ^ 32 ≢ prf t.key x / 2 ^ 32
    pub labels_real : (x : ℕ) → x < 2 ^ 32 → prf t.key x / 2 ^ 32 ≢ 0
    pub labels_at :
        (x i : ℕ)
        → x < 2 ^ 32
        → FindsAt t (prf t.key x) i
        → get_elem? t.xs_receiver_order (position perm i) ≡ some x
    pub owners :
        (at x : ℕ)
        → get_elem? t.touched at ≡ some false
        → get_elem? t.xs_receiver_order at ≡ some x
        → (x ≡ 2 ^ t.params.log_address_space_size)
          ⊎ ((x < 2 ^ 32) × ((i : ℕ) × FindsAt t (prf t.key x) i × (position perm i ≡ at)))

  pub entry-FindsAt :
      (t : OhTable V Key) (q i : ℕ)
      → q / 2 ^ 32 ≢ 0
      → FindsAt t q i
      → entry t q ≡ entry_in t t.receiver_shuffle i
  unfolding entry
  entry-FindsAt t q i real found =
      ap₂ (λ b f. entry_tagged t b f) (is_zero-false (q / 2 ^ 32) real) (found 0)

  pub entry-Absent : (t : OhTable V Key) (q : ℕ) → q / 2 ^ 32 ≢ 0 → Absent t q → entry t q ≡ missing
  unfolding entry
  entry-Absent t q real absent =
      ap₂ (λ b f. entry_tagged t b f) (is_zero-false (q / 2 ^ 32) real) (absent 0)

  pub entry-unreal : (t : OhTable V Key) (q : ℕ) → q / 2 ^ 32 ≡ 0 → entry t q ≡ taken
  unfolding entry
  entry-unreal t q unreal =
      ap (λ b. entry_tagged t b (lookup t.params.log_single_col_len t.cht_2shares q 0))
        ((==_iff (q / 2 ^ 32) 0).1 unreal)
