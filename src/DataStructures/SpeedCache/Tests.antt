-- ===== src/DataStructures/SpeedCache/Tests.antt =====
-- The theorems at a cache of three slots over addresses of four bits, two of them stored.
use gigadoram_rs.Base.{
  ℕ, ◌≡◌, refl, arith, [], ◌∷◌, none, some, true, false, inl, ◌==◌, ◌>>=◌, ◌||◌, if◌then◌else◌,
}
use gigadoram_rs.Primitives.Value.{from_value, ring_value, zero_record}
use gigadoram_rs.DataStructures.SpeedCache.{SpeedCache, query, query_many, write}
use gigadoram_rs.DataStructures.SpeedCache.Spec.{
  IsValid, cached_record, contains, stored_addrs, pick,
}
use gigadoram_rs.DataStructures.SpeedCache.Query.{query_lem}
use gigadoram_rs.DataStructures.SpeedCache.Many.{batch, query_many-query}
use gigadoram_rs.DataStructures.SpeedCache.Write.{Appended, write_lem, cached_record-write}

abbrev two : SpeedCache ℕ
two = record {
  length = 3;
  log_address_space_size = 4;
  num_stored = 2;
  addrs = 7 ∷ 8 ∷ 16 ∷ [];
  entries = from_value 70 ∷ from_value 80 ∷ from_value 0 ∷ [];
}

abbrev three : SpeedCache ℕ
three = record {
  length = 3;
  log_address_space_size = 4;
  num_stored = 3;
  addrs = 7 ∷ 8 ∷ 9 ∷ [];
  entries = from_value 70 ∷ from_value 80 ∷ from_value 90 ∷ [];
}

two-IsValid : IsValid two
two-IsValid = omega arith

query_lem_example :
    query two 8 none ≡ some (record two { addrs = 7 ∷ 16 ∷ 16 ∷ [] }, (cached_record two 8, true))
query_lem_example = query_lem two 8 none two-IsValid once (inl refl)
  where
    once :
        ((7 == 8) ≡ true → contains 8 (8 ∷ []) ≡ false)
        × (((8 == 8) ≡ true → false ≡ false) × Unit {0})
    once = (λ h. cc, (λ h. refl, tt))

written : write two (9 ∷ []) (from_value 90 ∷ []) ≡ some three
unfolding write
written = refl

write_lem_example :
    (c : SpeedCache ℕ) × (write two (9 ∷ []) (from_value 90 ∷ []) ≡ some c)
    × Appended two (9 ∷ []) (from_value 90 ∷ []) c
write_lem_example =
    write_lem two (9 ∷ []) (from_value 90 ∷ []) two-IsValid refl (omega arith) (omega arith)

cached_record-write_example :
    (c : SpeedCache ℕ) × (write two (9 ∷ []) (from_value 90 ∷ []) ≡ some c)
    × ((a : ℕ)
        → (cached_record c a ≡ (
            if contains a (stored_addrs two)
            then cached_record two a
            else pick zero_record a (9 ∷ []) (from_value 90 ∷ [])))
          × (contains a (stored_addrs c) ≡ (contains a (stored_addrs two) || contains a (9 ∷ []))))
cached_record-write_example =
    cached_record-write two (9 ∷ []) (from_value 90 ∷ []) two-IsValid refl (omega arith)
      (omega arith)

query_many-query_example : query_many two (8 ∷ []) none ≡ (query two 8 none >>= λ r. some (batch r))
query_many-query_example = query_many-query two 8
