-- ===== src/DataStructures/SpeedCache/Query.antt =====
-- `query` returns the cached record and retires its address.
use gigadoram_rs.Base.{
  ℕ, zero, suc, ◌^◌, ◌≡◌, ◌≢◌, refl, ap, ap₂, sym, ◌∙◌, fun_ext, arith, List, [], ◌∷◌, ◌++◌, map,
  Option, none, some, true, false, Bool-cases, ◌==◌, ◌⊎◌, inl, inr, if◌then◌else◌, length, take,
  drop, zip_with, bit_xor, length-take,
}
use gigadoram_rs.Base.Words.{xor_zero, zero-bit_xor, xor_assoc, xor_self}
use gigadoram_rs.Primitives.Rep3.{differ}
use gigadoram_rs.Primitives.Value.{DoramValue, Record, zero_record, xor_record}
use gigadoram_rs.DataStructures.SpeedCache.{
  SpeedCache, Row, select, circuit_row, circuit_rows, rows_for, updated_addr, update_all, reduce,
  query,
}
use gigadoram_rs.DataStructures.SpeedCache.Fold.{
  differ-false, false-differ, suc_eq_zero, select_test, pick-true, foldl-masked, reduce-foldl,
}
use gigadoram_rs.DataStructures.SpeedCache.Spec.{
  IsValid, contains, AtMostOnce, pick, mark, stored_addrs, stored_entries, cached_record,
}

-- The three columns of the rows.
module _ {V : Type 0} ⦃d : DoramValue V⦄ where
  pub zero_xor_record : (r : Record V) → xor_record zero_record r ≡ r
  zero_xor_record r = λ i. record {
    value = d.zero_bitxor r.value i;
    alibi = fun_ext (λ k. false-differ (r.alibi k)) i;
  }

  pub xor_record_zero : (r : Record V) → xor_record r zero_record ≡ r
  xor_record_zero r = λ i. record {
    value = d.bitxor_zero r.value i;
    alibi = fun_ext (λ k. differ-false (r.alibi k)) i;
  }

  updated_addr_lem :
      (sentinel a x : ℕ) (y : Record V)
      → updated_addr sentinel x (circuit_row a x y) ≡ (if x == a then sentinel else x)
  unfolding updated_addr circuit_row
  updated_addr_lem sentinel a x y = elim (Bool-cases (x == a)) [
    | inl here ↦ rw here (
        sym (xor_assoc x x sentinel)
        ∙ ap (λ t. bit_xor t sentinel) (xor_self x)
        ∙ zero-bit_xor sentinel)
    | inr elsewhere ↦ rw elsewhere (ap (λ t. bit_xor x t) (xor_zero 0) ∙ xor_zero x)
  ]

  updated_addrs_lem :
      (sentinel a : ℕ) (xs : List ℕ) (ys : List (Record V))
      → length xs ≡ length ys
      → update_all sentinel xs (circuit_rows a xs ys) ≡ mark sentinel a xs
  unfolding circuit_rows update_all
  updated_addrs_lem sentinel a [] ys h = refl
  updated_addrs_lem sentinel a (x ∷ xs) [] h = absurd (omega arith)
  updated_addrs_lem sentinel a (x ∷ xs) (y ∷ ys) h =
      ap₂ ◌∷◌ (updated_addr_lem sentinel a x y) (updated_addrs_lem sentinel a xs ys (omega arith))

  values_lem :
      (a : ℕ) (xs : List ℕ) (ys : List (Record V))
      → map (λ (r : Row V). r.y_if_found) (circuit_rows a xs ys)
        ≡ zip_with (λ x y. select (x == a) y zero_record) xs ys
  unfolding circuit_rows circuit_row
  values_lem a [] ys = refl
  values_lem a (x ∷ xs) [] = refl
  values_lem a (x ∷ xs) (y ∷ ys) = ap (λ t. select (x == a) y zero_record ∷ t) (values_lem a xs ys)

  founds_lem :
      (a : ℕ) (xs : List ℕ) (ys : List (Record V))
      → length xs ≡ length ys
      → map (λ (r : Row V). r.found) (circuit_rows a xs ys)
        ≡ zip_with (λ x y. select (x == a) y false) xs (map (λ x. true) xs)
  unfolding circuit_rows circuit_row
  founds_lem a [] ys h = refl
  founds_lem a (x ∷ xs) [] h = absurd (omega arith)
  founds_lem a (x ∷ xs) (y ∷ ys) h =
      ap₂ ◌∷◌ (sym (select_test (x == a))) (founds_lem a xs ys (omega arith))

  -- A slice of at least one row: the reductions give the cached record and the found bit.
  reductions :
      (a : ℕ) (xs : List ℕ) (ys : List (Record V))
      → length xs ≡ length ys
      → xs ≢ []
      → AtMostOnce a xs
      → (reduce xor_record (map (λ (r : Row V). r.y_if_found) (circuit_rows a xs ys))
          ≡ some (pick zero_record a xs ys))
        × (reduce differ (map (λ (r : Row V). r.found) (circuit_rows a xs ys))
            ≡ some (contains a xs))
  reductions a [] ys h ne once = absurd (ne refl)
  reductions a (x ∷ xs) [] h ne once = absurd (omega arith)
  reductions a (x ∷ xs) (y ∷ ys) h ne once = (
    ap (reduce xor_record) (values_lem a (x ∷ xs) (y ∷ ys))
        ∙ reduce-foldl xor_record zero_record zero_xor_record xor_record_zero _ _
        ∙ ap some (
            foldl-masked xor_record zero_record zero_xor_record xor_record_zero a (x ∷ xs) (y ∷ ys)
              once),
    ap (reduce differ) (founds_lem a (x ∷ xs) (y ∷ ys) h)
        ∙ reduce-foldl differ false false-differ differ-false _ _
        ∙ ap some (
            foldl-masked differ false false-differ differ-false a (x ∷ xs)
              (map (λ x. true) (x ∷ xs)) once
            ∙ pick-true a (x ∷ xs)),
  )

  abbrev at : ℕ → ℕ → ℕ → List ℕ → List (Record V) → SpeedCache V
  at capacity log n xs ys = record {
    length = capacity;
    log_address_space_size = log;
    num_stored = n;
    addrs = xs;
    entries = ys;
  }

  -- Rows that were computed ahead are those that the circuit gives.
  abbrev pub RowsFit : SpeedCache V → ℕ → Option (List (Row V)) → Type 0
  RowsFit c a precomputed =
      (precomputed ≡ none)
      ⊎ (precomputed ≡ some (circuit_rows a (stored_addrs c) (stored_entries c)))

  rows_for_lem :
      (a : ℕ) (xs : List ℕ) (ys : List (Record V)) (precomputed : Option (List (Row V)))
      → (precomputed ≡ none) ⊎ (precomputed ≡ some (circuit_rows a xs ys))
      → rows_for a xs ys precomputed ≡ circuit_rows a xs ys
  unfolding rows_for
  rows_for_lem a xs ys precomputed (inl e) = rw (e, rows_for)
  rows_for_lem a xs ys precomputed (inr e) = rw (e, rows_for)

  query_at :
      (capacity log n : ℕ) (xs : List ℕ) (ys : List (Record V)) (a : ℕ)
      (precomputed : Option (List (Row V)))
      → length (take n xs) ≡ length (take n ys)
      → (n ≢ 0 → take n xs ≢ [])
      → AtMostOnce a (take n xs)
      → rows_for a (take n xs) (take n ys) precomputed ≡ circuit_rows a (take n xs) (take n ys)
      → let c = at capacity log n xs ys in
        query c a precomputed
        ≡ some (
          at capacity log n (mark (2 ^ log) a (take n xs) ++ drop n xs) ys,
          (pick zero_record a (take n xs) (take n ys), contains a (take n xs)),
        )
  unfolding query
  query_at capacity log zero xs ys a precomputed h ne once rows = refl
  query_at capacity log (suc n) xs ys a precomputed h ne once rows =
      let (values, founds) =
        reductions a (take (suc n) xs) (take (suc n) ys) h (ne (omega arith)) once in
      rw (
        rows,
        values,
        founds,
        updated_addrs_lem (2 ^ log) a (take (suc n) xs) (take (suc n) ys) h,
        suc_eq_zero n,
      )

  -- A query for an address that is stored at most once succeeds. It returns the record stored for
  -- the address, or the zero record, and whether there is one; of the stored addresses it
  -- overwrites the queried one with the dummy marker, and it leaves all else as it was. This holds
  -- whether or not the rows were computed ahead.
  pub query_lem :
      (c : SpeedCache V) (a : ℕ) (precomputed : Option (List (Row V)))
      → IsValid c
      → AtMostOnce a (stored_addrs c)
      → RowsFit c a precomputed
      → query c a precomputed
        ≡ some (
          record c {
            addrs =
                mark (2 ^ c.log_address_space_size) a (stored_addrs c) ++ drop c.num_stored c.addrs;
          },
          (cached_record c a, contains a (stored_addrs c)),
        )
  query_lem c a precomputed v once fit =
      query_at c.length c.log_address_space_size c.num_stored c.addrs c.entries a precomputed
        (omega (
          arith,
          length-take c.num_stored c.addrs,
          length-take c.num_stored c.entries,
          v.addrs_length,
          v.entries_length,
          v.stored,
        ))
        (λ some_stored empty. some_stored (
          omega
            (arith, length-take c.num_stored c.addrs, ap length empty, v.addrs_length, v.stored)))
        once (rows_for_lem a (stored_addrs c) (stored_entries c) precomputed fit)
