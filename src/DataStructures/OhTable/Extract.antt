-- ===== src/DataStructures/OhTable/Extract.antt =====
-- A table whose dummies are used up gives back the entries that are not marked.
use gigadoram_rs.Base.{
  ℕ, ◌+◌, ◌-◌, ◌≡◌, refl, sym, ◌∙◌, arith, List, [], ◌∷◌, some, Bool, true, false, le→leb, ==_iff,
  length, count_true,
}
use gigadoram_rs.Primitives.Value.{Record}
use gigadoram_rs.DataStructures.OhTable.Params.{total_size}
use gigadoram_rs.DataStructures.OhTable.Table.{
  OhTable, untouched_entries, extract_untouched, extract,
}
use gigadoram_rs.DataStructures.OhTable.Valid.{IsTable}

-- The loop collects one entry for each position that is not marked.
untouched_entries_lem :
    {V : Type 0} (touched : List Bool) (xs : List ℕ) (ys : List (Record V))
    → length xs ≡ length touched
    → length ys ≡ length touched
    → (out_xs : List ℕ) × (out_ys : List (Record V)) × (untouched_entries touched xs ys
        ≡ some (out_xs, out_ys))
      × (length out_xs + count_true touched ≡ length touched)
      × (length out_ys ≡ length out_xs)
unfolding untouched_entries
untouched_entries_lem [] xs ys h k = ([], [], refl, refl, refl)
untouched_entries_lem (b ∷ touched) [] ys h k = absurd (omega arith)
untouched_entries_lem (b ∷ touched) (x ∷ xs) [] h k = absurd (omega arith)
untouched_entries_lem (true ∷ touched) (x ∷ xs) (y ∷ ys) h k =
    let (out_xs, out_ys, run, count, same) =
      untouched_entries_lem touched xs ys (omega (arith, h)) (omega (arith, k)) in
    (out_xs, out_ys, run, omega (arith, count), same)
untouched_entries_lem (false ∷ touched) (x ∷ xs) (y ∷ ys) h k =
    let (out_xs, out_ys, run, count, same) =
      untouched_entries_lem touched xs ys (omega (arith, h)) (omega (arith, k)) in
    (x ∷ out_xs, y ∷ out_ys, rw run refl, omega (arith, count), omega (arith, same))

module _ {V Key : Type 0} where
  -- `extract_untouched` succeeds on a well-formed table, and returns as many entries as the public count
  -- of queries says: all but the stash and the queried ones.
  pub extract_untouched_lem :
      (t : OhTable V Key)
      → IsTable t
      → (xs : List ℕ) × (ys : List (Record V)) × (extract_untouched t ≡ some (xs, ys))
        × (length xs ≡ total_size t.params - t.params.stash_size - t.query_count)
        × (length ys ≡ length xs)
  unfolding extract_untouched
  extract_untouched_lem t valid =
      let (xs, ys, run, count, same) =
        untouched_entries_lem t.touched t.xs_receiver_order t.ys_receiver_order
          (valid.xs_order ∙ sym valid.marks) (valid.ys_order ∙ sym valid.marks) in
      (
        xs,
        ys,
        rw
            (le→leb (t.params.stash_size + t.query_count) (total_size t.params)
              (omega (arith, valid.budget, valid.room)))
            run,
        omega (arith, count, valid.marked, valid.marks),
        same,
      )

  -- When a well-formed table has used up its dummies, `extract` succeeds, and both of its lists have
  -- one entry for each element outside the stash.
  pub extract_lem :
      (t : OhTable V Key)
      → IsTable t
      → t.query_count ≡ t.params.num_dummies
      → (xs : List ℕ) × (ys : List (Record V)) × (extract t ≡ some (xs, ys))
        × (length xs ≡ t.params.num_elements - t.params.stash_size)
        × (length ys ≡ t.params.num_elements - t.params.stash_size)
  unfolding extract
  extract_lem t valid used_up =
      let (xs, ys, run, count, same) = extract_untouched_lem t valid in
      let wanted : length xs ≡ t.params.num_elements - t.params.stash_size =
        omega (arith, count, used_up) in
      let wanted' : length ys ≡ t.params.num_elements - t.params.stash_size = same ∙ wanted in
      (
        xs,
        ys,
        rw
            (
              (==_iff t.query_count t.params.num_dummies).1 used_up,
              run,
              (==_iff (length xs) (t.params.num_elements - t.params.stash_size)).1 wanted,
              (==_iff (length ys) (t.params.num_elements - t.params.stash_size)).1 wanted',
            )
            refl,
        wanted,
        wanted',
      )
