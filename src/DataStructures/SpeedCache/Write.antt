-- ===== src/DataStructures/SpeedCache/Write.antt =====
-- `write` appends to the stored slots.
use gigadoram_rs.Base.{
  ℕ, zero, suc, ◌+◌, ◌≤◌, ◌<◌, ◌≡◌, refl, ap, ap₂, sym, ◌∙◌, arith, List, [], ◌∷◌, ◌++◌, some,
  false, ◌==◌, lt→ltb, le→leb, ==_iff, length, take, drop, length-take, length-drop, length-append,
  length-replicate, ◌||◌, ◌^◌, Bool-cases, inl, inr, if◌then◌else◌,
}
use mathlib.Core.List.{append_assoc}
use gigadoram_rs.Primitives.Value.{DoramValue, Record, zero_record}
use gigadoram_rs.DataStructures.SpeedCache.{SpeedCache, new, overwrite, write, skip}
use gigadoram_rs.DataStructures.SpeedCache.Spec.{
  IsValid, contains, contains-append, pick, stored_addrs, stored_entries, cached_record,
}

pub take-append {ℓ} : {A : Type ℓ} (n : ℕ) (xs ys : List A) → n ≡ length xs → take n (xs ++ ys) ≡ xs
take-append zero [] ys h = refl
take-append (suc n) [] ys h = absurd (omega arith)
take-append zero (x ∷ xs) ys h = absurd (omega arith)
take-append (suc n) (x ∷ xs) ys h = ap (λ t. x ∷ t) (take-append n xs ys (omega arith))

module _ {A : Type 0} (start end : ℕ) (ins xs : List A) (size : start + length ins ≡ end)
    (fits : end ≤ length xs) where
  length-overwrite : length (overwrite start end ins xs) ≡ length xs
  unfolding overwrite
  length-overwrite = omega (
    arith,
    length-append (take start xs) (ins ++ drop end xs),
    length-append ins (drop end xs),
    length-take start xs,
    length-drop end xs,
  )

  take-overwrite : take end (overwrite start end ins xs) ≡ take start xs ++ ins
  unfolding overwrite
  take-overwrite =
      ap (take end) (sym (append_assoc (take start xs) ins (drop end xs)))
      ∙ take-append end (take start xs ++ ins) _
          (omega (arith, length-append (take start xs) ins, length-take start xs))

module _ {V : Type 0} ⦃d : DoramValue V⦄ where
  -- The cache after `write`.
  pub record Appended (c : SpeedCache V) (xs : List ℕ) (ys : List (Record V)) (c' : SpeedCache V)
      : Type 0 where
    pub valid : IsValid c'
    pub addresses : stored_addrs c' ≡ stored_addrs c ++ xs
    pub records : stored_entries c' ≡ stored_entries c ++ ys
    pub count : c'.num_stored ≡ c.num_stored + length xs
    pub capacity : c'.length ≡ c.length
    pub log_size : c'.log_address_space_size ≡ c.log_address_space_size

  -- With room for the new entries, and at least one free slot, a write succeeds: it keeps the cache
  -- valid and appends the entries to the stored ones.
  pub write_lem :
      (c : SpeedCache V) (xs : List ℕ) (ys : List (Record V))
      → IsValid c
      → length xs ≡ length ys
      → c.num_stored < c.length
      → c.num_stored + length xs ≤ c.length
      → (c' : SpeedCache V) × (write c xs ys ≡ some c') × Appended c xs ys c'
  unfolding write
  write_lem c xs ys v same room fits = (
    after,
    rw ((==_iff _ _).1 same, lt→ltb _ _ room, le→leb _ _ fits),
    record {
      valid = record {
        addrs_length =
            length-overwrite c.num_stored end xs c.addrs refl (omega (arith, v.addrs_length))
            ∙ v.addrs_length;
        entries_length =
            length-overwrite c.num_stored end ys c.entries (omega (arith, same))
              (omega (arith, v.entries_length))
            ∙ v.entries_length;
        stored = fits;
      };
      addresses = take-overwrite c.num_stored end xs c.addrs refl (omega (arith, v.addrs_length));
      records =
          take-overwrite c.num_stored end ys c.entries (omega (arith, same))
            (omega (arith, v.entries_length));
      count = refl;
      capacity = refl;
      log_size = refl;
    },
  )
    where
      end : ℕ
      end = c.num_stored + length xs

      after : SpeedCache V
      after = record c {
        addrs = overwrite c.num_stored (c.num_stored + length xs) xs c.addrs;
        entries = overwrite c.num_stored (c.num_stored + length xs) ys c.entries;
        num_stored = c.num_stored + length xs;
      }

  pick-append :
      (a : ℕ) (xs xs' : List ℕ) (ys ys' : List (Record V))
      → length xs ≡ length ys
      → pick zero_record a (xs ++ xs') (ys ++ ys')
        ≡ (if contains a xs then pick zero_record a xs ys else pick zero_record a xs' ys')
  pick-append a [] xs' [] ys' h = refl
  pick-append a [] xs' (y ∷ ys) ys' h = absurd (omega (arith, h))
  pick-append a (x ∷ xs) xs' [] ys' h = absurd (omega (arith, h))
  pick-append a (x ∷ xs) xs' (y ∷ ys) ys' h = elim (Bool-cases (x == a)) [
    | inl here ↦ rw here refl
    | inr elsewhere ↦ rw elsewhere (pick-append a xs xs' ys ys' (omega (arith, h)))
  ]

  -- With room for the new entries, and at least one free slot, a write succeeds. After it an address
  -- that was stored is held with the record that it had, and any other with the first record written
  -- for it, or the zero record if there is none; the addresses stored are those stored before and
  -- those written.
  pub cached_record-write :
      (c : SpeedCache V) (xs : List ℕ) (ys : List (Record V))
      → IsValid c
      → length xs ≡ length ys
      → c.num_stored < c.length
      → c.num_stored + length xs ≤ c.length
      → (c' : SpeedCache V) × (write c xs ys ≡ some c')
        × ((a : ℕ)
            → (cached_record c' a ≡ (
                if contains a (stored_addrs c)
                then cached_record c a
                else pick zero_record a xs ys))
              × (contains a (stored_addrs c') ≡ (contains a (stored_addrs c) || contains a xs)))
  cached_record-write c xs ys v same room fits =
      let (c', e, w) = write_lem c xs ys v same room fits in
      let columns : length (stored_addrs c) ≡ length (stored_entries c) = omega (
        arith,
        length-take c.num_stored c.addrs,
        length-take c.num_stored c.entries,
        v.addrs_length,
        v.entries_length,
      ) in
      (
        c',
        e,
        λ a. (
          ap₂ (pick zero_record a) w.addresses w.records
              ∙ pick-append a (stored_addrs c) xs (stored_entries c) ys columns,
          ap (contains a) w.addresses ∙ contains-append a (stored_addrs c) xs,
        ),
      )

  -- The same for an address that was not stored, in terms of the appended columns.
  pub Appended-cached_record :
      (c c' : SpeedCache V) (a : ℕ) (xs : List ℕ) (ys : List (Record V))
      → IsValid c
      → contains a (stored_addrs c) ≡ false
      → Appended c xs ys c'
      → (cached_record c' a ≡ pick zero_record a xs ys)
        × (contains a (stored_addrs c') ≡ contains a xs)
  Appended-cached_record c c' a xs ys v absent w =
      let columns : length (stored_addrs c) ≡ length (stored_entries c) = omega (
        arith,
        length-take c.num_stored c.addrs,
        length-take c.num_stored c.entries,
        v.addrs_length,
        v.entries_length,
      ) in
      (
        ap₂ (pick zero_record a) w.addresses w.records
            ∙ pick-append a (stored_addrs c) xs (stored_entries c) ys columns
            ∙ ap
                (λ b.
                  if b
                  then pick zero_record a (stored_addrs c) (stored_entries c)
                  else pick zero_record a xs ys)
                absent,
        ap (contains a) w.addresses
            ∙ contains-append a (stored_addrs c) xs
            ∙ ap (λ t. t || contains a xs) absent,
      )

  -- A new cache is valid and stores nothing; skipping slots that are free stores the dummy marker.
  pub skip-new_IsValid :
      (capacity log n : ℕ)
      → n ≤ capacity
      → (c : SpeedCache V) × (skip (new capacity log) n ≡ some c)
        × IsValid c
        × (c.num_stored ≡ n)
        × (c.length ≡ capacity)
        × (c.log_address_space_size ≡ log)
  unfolding skip new
  skip-new_IsValid capacity log n h = (
    record (new capacity log) { num_stored = 0 + n },
    rw (le→leb (0 + n) capacity (omega arith)) refl,
    record {
      addrs_length = length-replicate capacity (2 ^ log);
      entries_length = length-replicate capacity zero_record;
      stored = omega arith;
    },
    omega arith,
    refl,
    refl,
  )
