-- ===== src/DataStructures/SpeedCache/Frame.antt =====
-- What a query leaves alone, whatever the cache holds.
use gigadoram_rs.Base.{
  ℕ, suc, ◌^◌, ◌≡◌, refl, ap, subst, arith, List, [], ◌∷◌, ◌++◌, map, Option, none, some, Bool,
  true, false, ◌==◌, if◌then◌else◌, length, take, drop, zip_with, length-append, length-take,
  length-drop, length-zip_with, ◌>>=◌,
}
use gigadoram_rs.Primitives.Rep3.{differ}
use gigadoram_rs.Primitives.Value.{DoramValue, Record, zero_record, xor_record}
use gigadoram_rs.DataStructures.SpeedCache.{
  SpeedCache, reduce, query, circuit_row, circuit_rows, rows_for, update_all, Row,
}
use gigadoram_rs.DataStructures.SpeedCache.Spec.{IsValid}

module _ {V : Type 0} ⦃d : DoramValue V⦄ where
  pub record Framed (c c' : SpeedCache V) : Type 0 where
    pub valid : IsValid c'
    pub count : c'.num_stored ≡ c.num_stored
    pub capacity : c'.length ≡ c.length
    pub log_size : c'.log_address_space_size ≡ c.log_address_space_size

  pub length-update_all :
      (sentinel : ℕ) (xs : List ℕ) (rows : List (Row V))
      → length (update_all sentinel xs rows) ≡ length xs
  unfolding update_all
  length-update_all sentinel [] rows = refl
  length-update_all sentinel (x ∷ xs) [] = refl
  length-update_all sentinel (x ∷ xs) (row ∷ rows) = ap suc (length-update_all sentinel xs rows)

  updated_addrs : SpeedCache V → ℕ → List ℕ
  updated_addrs c a =
      update_all (2 ^ c.log_address_space_size) (take c.num_stored c.addrs)
        (rows_for a (take c.num_stored c.addrs) (take c.num_stored c.entries) none)
      ++ drop c.num_stored c.addrs

  length-updated_addrs :
      (c : SpeedCache V) (a : ℕ) → IsValid c → length (updated_addrs c a) ≡ c.length
  unfolding updated_addrs rows_for circuit_rows
  length-updated_addrs c a v =
      let n = c.num_stored in
      let rows = zip_with (circuit_row a) (take n c.addrs) (take n c.entries) in
      let updated = update_all (2 ^ c.log_address_space_size) (take n c.addrs) rows in
      omega (
        arith,
        v.addrs_length,
        v.entries_length,
        v.stored,
        length-append updated (drop n c.addrs),
        length-drop n c.addrs,
        length-update_all (2 ^ c.log_address_space_size) (take n c.addrs) rows,
        length-zip_with (circuit_row a) (take n c.addrs) (take n c.entries),
        length-take n c.addrs,
        length-take n c.entries,
      )

  answer :
      SpeedCache V
      → ℕ
      → Record V × Bool
      → Bool
      → Option (Record V)
      → Option Bool
      → Option (SpeedCache V × (Record V × Bool))
  answer c a start b y f = if b then some (c, start) else do
    y_xor ← y
    found_xor ← f
    some (record c { addrs = updated_addrs c a }, (y_xor, found_xor))

  query_branches :
      (c c' : SpeedCache V) (a : ℕ) (out start : Record V × Bool) (b : Bool) (y : Option (Record V))
      (f : Option Bool)
      → IsValid c
      → answer c a start b y f ≡ some (c', out)
      → Framed c c'
  unfolding answer
  query_branches c c' a out start true y f v h =
      let same : c ≡ c' = cc in
      subst (λ x. Framed c x) same
        (record { valid = v; count = refl; capacity = refl; log_size = refl })
  query_branches c c' a out start false (some y) (some f) v h =
      let same : (record c { addrs = updated_addrs c a }) ≡ c' = cc in
      subst (λ x. Framed c x) same
        (record {
          valid = record {
            addrs_length = length-updated_addrs c a v;
            entries_length = v.entries_length;
            stored = v.stored;
          };
          count = refl;
          capacity = refl;
          log_size = refl;
        })
  query_branches c c' a out start false (some y) none v h = cc
  query_branches c c' a out start false none f v h = cc

  pub query_frame :
      (c c' : SpeedCache V) (a : ℕ) (out : Record V × Bool)
      → IsValid c
      → query c a none ≡ some (c', out)
      → Framed c c'
  unfolding query answer updated_addrs
  query_frame c c' a out v h =
      let n = c.num_stored in
      let rows = rows_for a (take n c.addrs) (take n c.entries) none in
      query_branches c c' a out (zero_record, false) (n == 0)
        (reduce xor_record (map (λ r. r.y_if_found) rows)) (reduce differ (map (λ r. r.found) rows))
        v h
